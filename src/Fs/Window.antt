-- ===== src/Fs/Window.antt =====
-- `readWindow` of internal/fs/handle.go. Offsets and sizes are `int64` patterns.
use kfuse.Prelude.{
  ℕ, ◌-◌, ◌^◌, ◌<◌, ◌≤◌, ◌≡◌, ◌||◌, ◌⊎◌, Option, none, some, if◌then◌else◌, ltb, arith,
}
use kfuse.Prelude.Word.{add64, sub64, slt, sle, word_mod}

abbrev pub max_read_size : ℕ
max_read_size = 2 ^ 30

-- `none` is EIO.
unfoldable pub read_window : ℕ → ℕ → ℕ → Option ℕ
read_window off want size =
    if slt off 0 || (slt want 0 || slt size 0)
    then none
    else if sle size off
    then some 0
    else let sum = add64 off want in
      let end = if slt sum off || slt size sum then size else sum in
      if slt max_read_size (sub64 end off) then none else some (sub64 end off)

-- For an offset, a length and a size that are not negative, the window is the smaller of the length
-- and of what the file still has, and EIO if that is above the limit. No sum wraps around in it.
pub read_window_exact :
    (off want size : ℕ)
    → off < 2 ^ 63
    → want < 2 ^ 63
    → size < 2 ^ 63
    → read_window off want size ≡ (
        let n = if ltb want (size - off) then want else size - off in
        if ltb max_read_size n then none else some n)
unfolding read_window add64 sub64 slt sle
read_window_exact off want size a b c = ground arith

-- A read with a negative offset, length or size is EIO.
pub read_window_negative :
    (off want size : ℕ)
    → off < word_mod
    → want < word_mod
    → size < word_mod
    → (2 ^ 63 ≤ off) ⊎ ((2 ^ 63 ≤ want) ⊎ (2 ^ 63 ≤ size))
    → read_window off want size ≡ none
unfolding read_window slt
read_window_negative off want size a b c h = ground arith
