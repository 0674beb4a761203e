-- ===== src/Command/Flags/Lists.antt =====
-- A flag that takes a list may be repeated, or given once with commas.
use text.Mathlib.TextLemmas.{cons-append, nil-append}
use openclaw_p2p.Command.Flags.{is_comma, append_items, set_list}
use openclaw_p2p.Text.{push_char, split}
use Prim.Native.Char.{Char, code}
use Prim.Native.String.{◌++◌ as append}
use openclaw_p2p.Prelude.{
  false, ◌⊎◌, true, inr, inl, Bool-cases, ◌∙◌, ap, refl, String, List, ◌≡◌, [], ◌∷◌, ◌++◌,
}

append_items-++ :
    (xs items ys : List String)
    → append_items items (xs ++ ys) ≡ append_items (append_items items xs) ys
unfolding append_items
append_items-++ [] items ys = refl
append_items-++ (x ∷ xs) items ys = append_items-++ xs _ ys

push_char_cons :
    (c : Char) (parts : List String)
    → (s : String) × (rest : List String) × (push_char c parts ≡ s ∷ rest)
push_char_cons c [] = (_, _, refl)
push_char_cons c (part ∷ parts) = (_, _, refl)

split_cons : (v : String) → (s : String) × (rest : List String) × (split is_comma v ≡ s ∷ rest)
unfolding split
split_cons String.[] = ("", [], refl)
split_cons (String.◌∷◌ c v) =
    elim (Bool-cases (is_comma (code c)))
      as (λ x. (s : String) × (rest : List String) × (split is_comma (String.◌∷◌ c v) ≡ s ∷ rest)) [
        | inl e ↦ ("", split is_comma v, rw e refl)
        | inr e ↦ let (s, rest, h) = push_char_cons c (split is_comma v) in (s, rest, rw e h)
      ]

push_char-++ :
    (c : Char) (parts ys : List String) (s : String) (rest : List String)
    → parts ≡ s ∷ rest
    → push_char c (parts ++ ys) ≡ push_char c parts ++ ys
push_char-++ c [] ys s rest h = cc h
push_char-++ c (part ∷ parts) ys s rest h = refl

-- A text with a comma in the middle is split there.
split-append :
    (v w : String) → split is_comma (append v (append "," w)) ≡ split is_comma v ++ split is_comma w
unfolding split
split-append String.[] w = rw (nil-append, cons-append, nil-append) refl
split-append (String.◌∷◌ c v) w =
    ap (split is_comma) (cons-append c v (append "," w))
    ∙ first (Bool-cases (is_comma (code c))) (split-append v w)
  where
    first :
        (is_comma (code c) ≡ true) ⊎ (is_comma (code c) ≡ false)
        → split is_comma (append v (append "," w)) ≡ split is_comma v ++ split is_comma w
        → split is_comma (String.◌∷◌ c (append v (append "," w)))
          ≡ split is_comma (String.◌∷◌ c v) ++ split is_comma w
    first (inl e) h = rw e (ap (λ parts. "" ∷ parts) h)
    first (inr e) h =
        let (s, rest, g) = split_cons v in
        rw e (ap (push_char c) h ∙ push_char-++ c (split is_comma v) (split is_comma w) s rest g)

-- Setting a list flag to two texts joined by a comma is setting it to the one and then to the
-- other, whatever the list held before.
pub set_list-append :
    (items : List String) (v w : String)
    → set_list items (append v (append "," w)) ≡ set_list (set_list items v) w
unfolding set_list
set_list-append items v w =
    ap (append_items items) (split-append v w)
    ∙ append_items-++ (split is_comma v) items (split is_comma w)
