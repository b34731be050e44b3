-- ===== src/Daemon/Exclusion.antt =====
-- Proofs about the mounts of one session in internal/daemon/lifecycle.go, where no two calls of the lease
-- overlap.
use kfuse.Prelude.{
  ℕ, ◌≤◌, ◌≡◌, ◌≢◌, some, List, [], ◌∷◌, All, refl, sym, subst, arith, ap, some-injective, ◌∙◌,
}
use kfuse.Prelude.Bytes.{Bytes}
use mathlib.Core.List.{Memᴰ}
use mathlib.Core.List.Memᴰ
use kfuse.Registry.Lease.{
  Answer, ok, locked, LeaseJson, Lease, claim_lease, renew_lease, release_lease,
}
use kfuse.Registry.{Objects, IsStore}
use kfuse.Prelude.{length, ◌++◌}
use kfuse.Daemon.Writers.{
  Mount, World, Call, CallKind, claiming, renewing, releasing, heartbeat, without, on_claim, settle,
  fresh_call, finished, IsNew, Step, wait_step, read_step, write_step, SerialReach, serial_here,
  serial_after,
}
use kfuse.Daemon.Calls.{complete-claiming, complete-renewing, complete-releasing}
use kfuse.Daemon.Holding.{IsUnsure, IsInTime, foreign-IsHolding}
use kfuse.Daemon.Sound.{
  IsSound, claim-IsSound, renew-IsSound, release-IsSound, wait-IsSound, added-IsSound,
}

All-Mem {ℓ κ} : {A : Type ℓ} (P : A → Type κ) (a : A) (xs : List A) → All P xs → Memᴰ a xs → P a
All-Mem P a [] p m = absurd (Memᴰ.not-nil m)
All-Mem P a (x ∷ xs) p (Memᴰ.head e) = subst P (sym e) p.0
All-Mem P a (x ∷ xs) p (Memᴰ.tail m) = All-Mem P a xs p.1 m

All-map {ℓ κ} :
    {A : Type ℓ} {P Q : A → Type κ} → ((a : A) → P a → Q a) → (xs : List A) → All P xs → All Q xs
All-map f [] p = tt
All-map f (x ∷ xs) (p, ps) = (f x p, All-map f xs ps)

All-short {ℓ κ} :
    {A : Type ℓ} (P : A → Type κ) (x : A) (xs : List A) → length (x ∷ xs) ≤ 1 → All P xs
All-short P x [] l = tt
All-short P x (y ∷ xs) l = absurd (ground (arith, l))

-- In a list of one element.
alone {ℓ κ} :
    {A : Type ℓ} (P : A → Type κ) (before rest : List A) (a : A)
    → length (before ++ a ∷ rest) ≤ 1
    → All P (before ++ a ∷ rest)
    → P a × (before ++ rest ≡ [])
alone P [] [] a l p = (p.0, refl)
alone P [] (x ∷ rest) a l p = absurd (ground (arith, l))
alone P (x ∷ []) rest a l p = absurd (ground (arith, l))
alone P (x ∷ y ∷ before) rest a l p = absurd (ground (arith, l))

module _ (prefix : Bytes) (json : LeaseJson) (O : Objects) (S : IsStore O) (U : IsUnsure O)
    (trip : (l : Lease) → json.decode (json.encode l) ≡ some l) (id : Bytes) where
  abbrev IsSole : World prefix json O id → Type 0
  IsSole w = All (λ (m : Mount). IsSound prefix json O S U trip id w.clock w.store m) w.mounts

  -- What a call has read is what it would read now.
  abbrev IsCurrent : World prefix json O id → Call → Type 0
  IsCurrent w c =
      (c ≡ fresh_call prefix json O id c.kind c.now w.store c.mount)
      × (c.now ≤ w.clock)
      × IsNew prefix json O id c.kind c.mount w.mounts

  abbrev IsSerial : World prefix json O id → Type 0
  IsSerial w = IsSole w × All (λ (c : Call). IsCurrent w c) w.calls

  -- The write of a call leaves every mount that is in time holding.
  write-IsSole :
      (w : World prefix json O id) (kind : CallKind) (now later : ℕ) (m : Mount)
      (others : List Call)
      → w.clock ≤ later
      → now ≤ w.clock
      → IsNew prefix json O id kind m w.mounts
      → IsSole w
      → IsSole (
          finished prefix json O id later (fresh_call prefix json O id kind now w.store m) others w)
  unfolding settle
  write-IsSole w claiming now later m others a b d s =
      let P = λ (r : Answer × O.State).
        All (λ (x : Mount). IsSound prefix json O S U trip id later r.1 x)
          (on_claim r.0 (record m { written = later }) w.mounts) in
      subst P (sym (complete-claiming prefix json O id now later w.store m)) (
        added-IsSound prefix json O S U trip id now later w.store m w.mounts _ refl (
          claim-IsSound prefix json O S U trip id w.clock now later w.store m w.mounts a
            (omega (arith, a, b)) (d refl) s))
  write-IsSole w renewing now later m others a b d s =
      let P = λ (r : Answer × O.State).
        All (λ (x : Mount). IsSound prefix json O S U trip id later r.1 x)
          (heartbeat later r.0 m.token w.mounts) in
      subst P (sym (complete-renewing prefix json O id now later w.store m)) (
        renew-IsSound prefix json O S U trip id w.clock now later w.store m w.mounts a
          (omega (arith, a, b)) s)
  write-IsSole w releasing now later m others a b d s =
      let P = λ (r : Answer × O.State).
        All (λ (x : Mount). IsSound prefix json O S U trip id later r.1 x)
          (without m.token w.mounts) in
      subst P (sym (complete-releasing prefix json O id now later w.store m)) (
        release-IsSound prefix json O S U trip id later w.store m w.mounts
          (wait-IsSound prefix json O S U trip id w.clock later w.store w.mounts a s))

  Step-IsSerial :
      (w u : World prefix json O id)
      → Step prefix json O id w u
      → length w.calls ≤ 1
      → length u.calls ≤ 1
      → IsSerial w
      → IsSerial u
  Step-IsSerial w _ (wait_step now a) l l' (s, p) = (
    wait-IsSound prefix json O S U trip id w.clock now w.store w.mounts a s,
    All-map (λ (c : Call) (q : IsCurrent w c). (q.0, omega (arith, q.1, a), q.2)) w.calls p,
  )
  Step-IsSerial w _ (read_step kind now m a d) l l' (s, p) = (
    wait-IsSound prefix json O S U trip id w.clock now w.store w.mounts a s,
    (
      (refl, omega arith, d),
      All-short _ (fresh_call prefix json O id kind now w.store m) w.calls l',
    ),
  )
  Step-IsSerial w _ (write_step later before rest c a e) l l' (s, p) =
      let ((q, b, d), n) =
        alone (λ (x : Call). IsCurrent w x) before rest c (rw e at l)
          (subst (λ (cs : List Call). All (λ (x : Call). IsCurrent w x) cs) e p) in
      (
        subst (λ (x : Call). IsSole (finished prefix json O id later x (before ++ rest) w)) (sym q)
            (write-IsSole w c.kind c.now later c.mount (before ++ rest) a b d s),
        subst
            (λ (cs : List Call).
              All (λ (x : Call). IsCurrent (finished prefix json O id later c (before ++ rest) w) x)
                cs)
            (sym n) tt,
      )

  SerialReach-IsSerial :
      (w u : World prefix json O id)
      → SerialReach prefix json O id w u
      → IsSerial w
      → IsSerial u × (length u.calls ≤ 1)
  SerialReach-IsSerial w _ (serial_here l) s = (s, l)
  SerialReach-IsSerial w u (serial_after v _ r k l) s =
      let (i, n) = SerialReach-IsSerial w v r s in (Step-IsSerial v u k n l i, l)

  none-IsSerial : (w : World prefix json O id) → w.mounts ≡ [] → w.calls ≡ [] → IsSerial w
  none-IsSerial w e f = (
    subst (λ ms. All (λ (m : Mount). IsSound prefix json O S U trip id w.clock w.store m) ms)
        (sym e) tt,
    subst (λ (cs : List Call). All (λ (c : Call). IsCurrent w c) cs) (sym f) tt,
  )

  -- From a world without mounts, in every order of claims, renewals and releases in which no call begins
  -- while another one is between its read and its write: two mounts that have both written the lease at
  -- most 45 seconds ago have one token.
  pub in_time-alone :
      (w u : World prefix json O id) (m x : Mount)
      → w.mounts ≡ []
      → w.calls ≡ []
      → SerialReach prefix json O id w u
      → Memᴰ m u.mounts
      → Memᴰ x u.mounts
      → IsInTime u.clock m
      → IsInTime u.clock x
      → x.token ≡ m.token
  in_time-alone w u m x e f r i j a b =
      let s = (SerialReach-IsSerial w u r (none-IsSerial w e f)).0.0 in
      let (t, h, _, _, k) =
        (All-Mem (λ (y : Mount). IsSound prefix json O S U trip id u.clock u.store y) m u.mounts s
            i).1
          a in
      let (t', h', _, _, k') =
        (All-Mem (λ (y : Mount). IsSound prefix json O S U trip id u.clock u.store y) x u.mounts s
            j).1
          b in
      ap (λ (l : Lease). l.token) (some-injective _ _ (some-injective _ _ (sym k' ∙ k)))

  -- From a world without mounts, in every order of claims, renewals and releases in which no call begins
  -- while another one is between its read and its write: while a mount has written the lease at most 45
  -- seconds ago, an undisturbed claim or renewal by another token answers that the lease is locked, and
  -- a release by it changes nothing.
  pub in_time-locks :
      (w u : World prefix json O id) (m : Mount) (token host : Bytes) (later : ℕ)
      → w.mounts ≡ []
      → w.calls ≡ []
      → SerialReach prefix json O id w u
      → Memᴰ m u.mounts
      → IsInTime u.clock m
      → m.token ≢ token
      → (claim_lease prefix json O u.clock later u.store id token host ≡ (locked, u.store))
        × (renew_lease prefix json O u.clock later u.store id token host ≡ (locked, u.store))
        × (release_lease prefix json O u.store id token ≡ (ok, u.store))
  in_time-locks w u m token host later e f r i a d =
      let s = (SerialReach-IsSerial w u r (none-IsSerial w e f)).0.0 in
      foreign-IsHolding prefix json O S U trip id u.store m u.clock later token host
        ((All-Mem (λ (y : Mount). IsSound prefix json O S U trip id u.clock u.store y) m u.mounts s
            i).1
          a)
        a d
