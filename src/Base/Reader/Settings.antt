-- ===== src/Base/Reader/Settings.antt =====
-- Lines of a key and a value, and that every key reads its own value back.
use Prim.Native.String.{String, ◌++◌ as ◌<>◌}
use mathlib.Core.Path.{◌≡◌, ap, ◌∙◌}
use mathlib.Core.Bool.{Bool, true, ◌&&◌}
use mathlib.Core.Option.{Option, none, some}
use mathlib.Core.List.{List, [], ◌∷◌, ◌++◌, map}
use atomix_operator.Base.Tests.{
  All, All-map, All-append, All-both, all, all-All, both-left, both-right,
}
use atomix_operator.Base.Int.{ℤ}
use atomix_operator.Base.Text.{sprint, join_lines}
use atomix_operator.Base.Reader.{
  is_line, is_line-append, read, read_lem, find_line, find_line-skip, find_line-here, differs,
  strip-differs, Misses, misses, misses-Misses,
}
use atomix_operator.Base.Reader.Numbers.{read_ℤ, read_ℤ-sprint, sprint-is_line}

pub data Value : Type 0 where
  text : String → Value
  number : ℤ → Value

abbrev pub Setting : Type 0
Setting = String × Value

abbrev pub show : Value → String
show (text s) = s
show (number x) = sprint x

abbrev pub line : Setting → String
line x = x.0 <> show x.1

abbrev parsed : Option String → Option ℤ
parsed none = none
parsed (some s) = read_ℤ s

abbrev pub read_number : String → String → Option ℤ
read_number key s = parsed (read key s)

-- A text says what is set.
abbrev pub Says : String → Setting → Type 0
Says s (key, text t) = read key s ≡ some t
Says s (key, number x) = read_number key s ≡ some x

-- The texts are of one line; numbers always are.
abbrev pub is_value : Setting → Bool
is_value (key, text t) = is_line t
is_value (key, number x) = true

-- No line is found under the key of a later one.
abbrev pub apart : List Setting → Bool
apart [] = true
apart (x ∷ xs) = all (λ y. differs y.0 x.0) xs && apart xs

-- None of the lines is found under the key.
abbrev pub is_key : List String → Setting → Bool
is_key ls x = is_line x.0 && all (misses x.0) ls

abbrev Found : List String → Setting → Type 0
Found ls x = find_line x.0 ls ≡ some (show x.1)

-- Lines before that are not found under the keys do not matter.
skip-Found :
    (before after : List String) (settings : List Setting)
    → All (λ x. All (Misses x.0) before) settings
    → All (Found after) settings
    → All (Found (before ++ after)) settings
skip-Found before after [] miss found = tt
skip-Found before after (x ∷ xs) (m, miss) (f, found) =
    (find_line-skip x.0 before after m ∙ f, skip-Found before after xs miss found)

settings-Found :
    (settings : List Setting) (after : List String)
    → apart settings ≡ true
    → All (Found (map line settings ++ after)) settings
settings-Found [] after e = tt
settings-Found (x ∷ xs) after e = (
  find_line-here x.0 (show x.1) (map line xs ++ after),
  skip-Found (line x ∷ []) (map line xs ++ after) xs
      (All-map (λ y d. (strip-differs y.0 x.0 (show x.1) d, tt)) xs
        (all-All (λ y. differs y.0 x.0) xs (both-left _ (apart xs) e)))
      (settings-Found xs after (both-right (all (λ y. differs y.0 x.0) xs) (apart xs) e)),
)

read-Says : (s : String) (x : Setting) → read x.0 s ≡ some (show x.1) → Says s x
read-Says s (key, text t) e = e
read-Says s (key, number x) e = ap parsed e ∙ read_ℤ-sprint x

line-is_line : (x : Setting) → is_line x.0 ≡ true → is_value x ≡ true → is_line (line x) ≡ true
line-is_line (key, text t) e f = is_line-append key t e f
line-is_line (key, number x) e f = is_line-append key (sprint x) e (sprint-is_line x)

lines-is_line :
    (ls : List String) (settings : List Setting)
    → all (is_key ls) settings ≡ true
    → All (λ x. is_value x ≡ true) settings
    → All (λ l. is_line l ≡ true) (map line settings)
lines-is_line ls [] e f = tt
lines-is_line ls (x ∷ xs) e (f, rest) =
    let key = both-left (is_key ls x) (all (is_key ls) xs) e in
    (
      line-is_line x (both-left (is_line x.0) (all (misses x.0) ls) key) f,
      lines-is_line ls xs (both-right (is_key ls x) (all (is_key ls) xs) e) rest,
    )

keys-Misses :
    (ls : List String) (settings : List Setting)
    → all (is_key ls) settings ≡ true
    → All (λ x. All (Misses x.0) ls) settings
keys-Misses ls settings e =
    All-map (λ x key. misses-Misses x.0 ls (both-right (is_line x.0) (all (misses x.0) ls) key))
      settings (all-All (is_key ls) settings e)

-- Behind some lines, a title and before other lines, all settings are read back, if no line before
-- them is found under a key, nor a line of another setting.
pub settings-Says :
    (first after : List String) (title name : String) (settings : List Setting)
    → all (is_key ("" ∷ first)) settings ≡ true
    → all (λ x. differs x.0 title) settings ≡ true
    → apart settings ≡ true
    → all is_line first ≡ true
    → is_line (title <> name) ≡ true
    → All (λ x. is_value x ≡ true) settings
    → all is_line after ≡ true
    → All
        (Says (join_lines ("" ∷ (first ++ ((title <> name) ∷ (map line settings ++ after))))))
        settings
settings-Says first after title name settings keys titled separate lines_before title_line values
      lines_after =
    let behind = map line settings ++ after in
    let ls = first ++ (title <> name) ∷ behind in
    let ok_lines : All (λ l. is_line l ≡ true) ls =
      All-append (λ l. is_line l ≡ true) first ((title <> name) ∷ behind)
        (all-All is_line first lines_before)
        (
          title_line,
          All-append (λ l. is_line l ≡ true) (map line settings) after
              (lines-is_line ("" ∷ first) settings keys values) (all-All is_line after lines_after),
        ) in
    let miss = keys-Misses ("" ∷ first) settings keys in
    let found : All (Found ls) settings =
      skip-Found first ((title <> name) ∷ behind) settings (All-map (λ x m. m.1) settings miss) (
        skip-Found ((title <> name) ∷ []) behind settings
          (All-map (λ x d. (strip-differs x.0 title name d, tt)) settings
            (all-All (λ x. differs x.0 title) settings titled))
          (settings-Found settings after separate)) in
    All-map (λ x m. read-Says _ x (read_lem x.0 ls m.0.0 ok_lines ∙ m.1)) settings
      (All-both (λ x. All (Misses x.0) ("" ∷ first)) (Found ls) settings miss found)
