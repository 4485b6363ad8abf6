-- ===== src/Bytes/Lines.antt =====
-- A file as lines: `read_until(b'\n', ..)` of the standard library behind a limit, and its laws.
use inference_io.Prelude.{
  ℕ, zero, suc, ◌<◌, ◌≡◌, refl, Bool, true, false, [], ◌∷◌, ◌++◌, arith, length, ◌==◌,
  if◌then◌else◌,
}
use inference_io.Bytes.{Bytes, contains}

abbrev pub newline : ℕ
newline = 10

-- `take(limit).read_until(b'\n')`: the line without its line feed, whether it has one, and what
-- is left of the file.
pub record Line : Type 0 where
  pub text : Bytes
  pub terminated : Bool
  pub rest : Bytes

abbrev pub longer : ℕ → Line → Line
longer b line = record line { text = b ∷ line.text }

unfoldable pub read_until : ℕ → Bytes → Line
read_until zero file = record { text = []; terminated = false; rest = file }
read_until (suc limit) [] = record { text = []; terminated = false; rest = [] }
read_until (suc limit) (b ∷ file) =
    let line = read_until limit file in
    if b == newline then record { text = []; terminated = true; rest = file } else longer b line

-- `read == 0`.
abbrev pub at_end : Line → Bool
at_end line = elim line.text [ [] ↦ (if line.terminated then false else true) | b ∷ text ↦ false ]

-- A terminated line is the file up to its first line feed.
pub record IsFirstLine (file : Bytes) (line : Line) : Type 0 where
  pub split : file ≡ line.text ++ newline ∷ line.rest
  pub one_line : contains newline line.text ≡ false

pub read_until-IsFirstLine :
    (limit : ℕ) (file : Bytes)
    → (read_until limit file).terminated ≡ true
    → IsFirstLine file (read_until limit file)
unfolding read_until
read_until-IsFirstLine zero file h = cc
read_until-IsFirstLine (suc limit) [] h = cc
read_until-IsFirstLine (suc limit) (b ∷ file) h = ground (arith, read_until-IsFirstLine limit file)

-- A terminated line is read alike when more bytes follow.
pub read_until-append :
    (limit : ℕ) (file more : Bytes)
    → (read_until limit file).terminated ≡ true
    → read_until limit (file ++ more)
      ≡ record (read_until limit file) { rest = (read_until limit file).rest ++ more }
unfolding read_until
read_until-append zero file more h = cc
read_until-append (suc limit) [] more h = cc
read_until-append (suc limit) (b ∷ file) more h = ground (arith, read_until-append limit file more)

-- A text with no line feed is read back from in front of one.
pub read_until-line :
    (limit : ℕ) (text rest : Bytes)
    → contains newline text ≡ false
    → length text < limit
    → read_until limit (text ++ newline ∷ rest)
      ≡ record { text = text; terminated = true; rest = rest }
unfolding read_until
read_until-line zero text rest c h = absurd (omega arith)
read_until-line (suc limit) [] rest c h = refl
read_until-line (suc limit) (b ∷ text) rest c h = ground (arith, read_until-line limit text rest)

-- Nothing is read only at the end of the file.
pub read_until-at_end :
    (limit : ℕ) (file : Bytes) → at_end (read_until (suc limit) file) ≡ true → file ≡ []
unfolding read_until
read_until-at_end limit [] h = refl
read_until-at_end limit (b ∷ file) h = ground arith

-- A text with no line feed is read whole.
pub read_until-open :
    (limit : ℕ) (text : Bytes)
    → contains newline text ≡ false
    → length text < limit
    → read_until limit text ≡ record { text = text; terminated = false; rest = [] }
unfolding read_until
read_until-open zero text c h = absurd (omega arith)
read_until-open (suc limit) [] c h = refl
read_until-open (suc limit) (b ∷ text) c h = ground (arith, read_until-open limit text)
