-- ===== src/Base/Reader.antt =====
-- A reader of a text of lines `key value`, as an independent description of what a configuration
-- says: it splits the text at newlines and takes the first line that begins with the key.
pub mod Numbers
pub mod Settings
use Prim.Native.Char.{Char, code}
use Prim.Native.String.{String, ◌++◌ as ◌<>◌}
use mathlib.Core.Path.{◌≡◌, refl, ap, ◌∙◌}
use mathlib.Core.Bool.{Bool, true, false, not, ◌&&◌}
use mathlib.Core.Option.{Option, none, some}
use mathlib.Core.List.{List, [], ◌∷◌, ◌++◌}
use text.Mathlib.TextLemmas.{cons-append, nil-append}
use native.Mathlib.Omega.{arith}
use atomix_operator.Base.Tests.{nat_eq, if◌then◌else◌, All, all, is_some}
use atomix_operator.Base.Text.{join_lines}

abbrev pub is_newline : Char → Bool
is_newline c = nat_eq (code c) b'\n'

abbrev pub is_line : String → Bool
is_line String.[] = true
is_line (String.◌∷◌ c s) = not (is_newline c) && is_line s

abbrev push : Char → List String → List String
push c [] = String.◌∷◌ c String.[] ∷ []
push c (l ∷ ls) = String.◌∷◌ c l ∷ ls

unfoldable pub lines : String → List String
lines String.[] = "" ∷ []
lines (String.◌∷◌ c s) = let rest = lines s in if is_newline c then "" ∷ rest else push c rest

-- What is left of a text that begins with another.
unfoldable pub strip : String → String → Option String
strip String.[] s = some s
strip (String.◌∷◌ c p) String.[] = none
strip (String.◌∷◌ c p) (String.◌∷◌ d s) =
    let rest = strip p s in if nat_eq (code c) (code d) then rest else none

abbrev or_else : Option String → Option String → Option String
or_else none o = o
or_else (some s) o = some s

unfoldable pub find_line : String → List String → Option String
unfolding strip
find_line key [] = none
find_line key (l ∷ ls) = let rest = find_line key ls in or_else (strip key l) rest

unfoldable pub read : String → String → Option String
unfolding lines find_line
read key text = find_line key (lines text)

pub is_line-append : (s t : String) → is_line s ≡ true → is_line t ≡ true → is_line (s <> t) ≡ true
is_line-append String.[] t e f = rw (nil-append t) f
is_line-append (String.◌∷◌ c s) t e f = rw (cons-append c s t) (ground (arith, is_line-append s t))

lines_of_line : (l : String) → is_line l ≡ true → lines l ≡ l ∷ []
unfolding lines
lines_of_line String.[] e = refl
lines_of_line (String.◌∷◌ c s) e = ground (arith, lines_of_line s)

lines-append : (l t : String) → is_line l ≡ true → lines (l <> ("\n" <> t)) ≡ l ∷ lines t
unfolding lines
lines-append String.[] t e =
    rw (nil-append ("\n" <> t)) (rw (cons-append "\n" "" t) (rw (nil-append t) refl))
lines-append (String.◌∷◌ c s) t e =
    rw (cons-append c s ("\n" <> t)) (ground (arith, lines-append s t))

-- Lines that are joined are read one by one.
pub lines-join_lines :
    (l : String) (ls : List String)
    → All (λ k. is_line k ≡ true) (l ∷ ls)
    → lines (join_lines (l ∷ ls)) ≡ l ∷ ls
lines-join_lines l [] (e, _) = lines_of_line l e
lines-join_lines l (k ∷ ls) (e, rest) =
    lines-append l (join_lines (k ∷ ls)) e ∙ ap (λ m. l ∷ m) (lines-join_lines k ls rest)

pub strip-append : (p s : String) → strip p (p <> s) ≡ some s
unfolding strip
strip-append String.[] s = rw (nil-append s) refl
strip-append (String.◌∷◌ c p) s = rw (cons-append c p s) (ground (arith, strip-append p s))

-- A text that is not the other's beginning, whatever follows.
abbrev pub differs : String → String → Bool
differs String.[] l = false
differs (String.◌∷◌ c p) String.[] = false
differs (String.◌∷◌ c p) (String.◌∷◌ d l) =
    let rest = differs p l in if nat_eq (code c) (code d) then rest else true

pub strip-differs : (p l s : String) → differs p l ≡ true → strip p (l <> s) ≡ none
unfolding strip
strip-differs String.[] l s e = cc
strip-differs (String.◌∷◌ c p) String.[] s e = cc
strip-differs (String.◌∷◌ c p) (String.◌∷◌ d l) s e =
    rw (cons-append d l s) (ground (arith, strip-differs p l s))

-- The line is missed by a key.
abbrev pub Misses : String → String → Type 0
Misses key l = strip key l ≡ none

pub find_line-skip :
    (key : String) (before after : List String)
    → All (Misses key) before
    → find_line key (before ++ after) ≡ find_line key after
unfolding find_line
find_line-skip key [] after miss = refl
find_line-skip key (l ∷ before) after (miss, rest) = rw miss (find_line-skip key before after rest)

pub find_line-here :
    (key s : String) (after : List String) → find_line key ((key <> s) ∷ after) ≡ some s
unfolding find_line
find_line-here key s after = rw (strip-append key s) refl

-- The lines of a text that begins with a newline are searched.
pub read_lem :
    (key : String) (ls : List String)
    → Misses key ""
    → All (λ l. is_line l ≡ true) ls
    → read key (join_lines ("" ∷ ls)) ≡ find_line key ls
unfolding read
read_lem key ls miss ok_lines =
    rw (lines-join_lines "" ls (refl, ok_lines)) (find_line-skip key ("" ∷ []) ls (miss, tt))

abbrev pub misses : String → String → Bool
misses key l = not (is_some (strip key l))

pub misses-Misses :
    (key : String) (ls : List String) → all (misses key) ls ≡ true → All (Misses key) ls
misses-Misses key [] e = tt
misses-Misses key (l ∷ ls) e = (ground arith, misses-Misses key ls (ground arith))
