-- ===== src/Patch/Headers.antt =====
-- Which path a header gives, and how far it reaches: the header loop of parse_file_patch.
use devit.Prelude.{ℕ, ◌≡◌, ◌≢◌, refl, false, some, [], ◌∷◌, arith}
use devit.Text.{Text, text, text_eq, starts_with, before, trim_start_pair}
use devit.Patch.File.{header_path}

-- What `trim_start_matches` of a two-character pattern leaves does not begin with the pattern.
trim_start_pair-done :
    (a b : ℕ) (s : Text) → starts_with (trim_start_pair a b s) (a ∷ b ∷ []) ≡ false
unfolding trim_start_pair starts_with
trim_start_pair-done a b [] = refl
trim_start_pair-done a b (c ∷ []) = ground arith
trim_start_pair-done a b (c ∷ d ∷ s) = ground (arith, trim_start_pair-done a b s)

trim_start_pair-doubled :
    (a b : ℕ) (s : Text) → trim_start_pair a b (a ∷ b ∷ s) ≡ trim_start_pair a b s
unfolding trim_start_pair
trim_start_pair-doubled a b s = ground arith

before-doubled :
    (side : ℕ) (s : Text)
    → side ≢ b'\t'
    → before b'\t' (side ∷ b'/' ∷ s) ≡ side ∷ b'/' ∷ before b'\t' s
unfolding before
before-doubled side s n = ground arith

not_dev_null :
    (side : ℕ) (s : Text) → side ≢ b'/' → text_eq (side ∷ b'/' ∷ s) (text "/dev/null") ≡ false
not_dev_null side s n = ground arith

-- Every copy of the side's prefix is taken off: the path of a file in a directory `a` is read without
-- that directory, as the path of a file of the same name outside it.
pub header_path-doubled :
    (side : ℕ) (s : Text)
    → side ≢ b'\t'
    → side ≢ b'/'
    → text_eq (before b'\t' s) (text "/dev/null") ≡ false
    → header_path side (side ∷ b'/' ∷ s) ≡ header_path side s
unfolding header_path
header_path-doubled side s tab slash e =
    rw
      (
        before-doubled side s tab,
        not_dev_null side (before b'\t' s) slash,
        e,
        trim_start_pair-doubled side b'/' (before b'\t' s),
      )
      refl

trim_start_pair-plain :
    (a b : ℕ) (s : Text) → starts_with s (a ∷ b ∷ []) ≡ false → trim_start_pair a b s ≡ s
unfolding trim_start_pair starts_with
trim_start_pair-plain a b [] h = refl
trim_start_pair-plain a b (c ∷ []) h = refl
trim_start_pair-plain a b (c ∷ d ∷ s) h = ground arith

-- One prefix of the side is taken off.
pub header_path-prefixed :
    (side : ℕ) (y : Text)
    → side ≢ b'\t'
    → side ≢ b'/'
    → before b'\t' y ≡ y
    → starts_with y (side ∷ b'/' ∷ []) ≡ false
    → header_path side (side ∷ b'/' ∷ y) ≡ some y
unfolding header_path
header_path-prefixed side y tab slash plain once =
    rw
      (
        before-doubled side y tab,
        not_dev_null side (before b'\t' y) slash,
        plain,
        trim_start_pair-doubled side b'/' y,
        trim_start_pair-plain side b'/' y once,
      )
      refl
