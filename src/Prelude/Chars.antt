-- ===== src/Prelude/Chars.antt =====
-- Texts as lists of code points; a literal is `codes "..."`.
use Prim.Native.Nat.{ℕ}
use Prim.Native.Char.{code}
use Prim.Native.String.{String}
use mathlib.Core.Bool.{Bool, true, false, ◌&&◌, ◌||◌}
use mathlib.Core.List.{List, [], ◌∷◌, ◌++◌}
use thorn.Prelude.Tests.{if◌then◌else◌, leb, list_beq, list_eq, nat_beq, nat_eq, option_eq}

abbrev pub Text : Type 0
Text = List ℕ

abbrev pub codes : String → Text
codes String.[] = []
codes (String.◌∷◌ c s) = code c ∷ codes s

-- str.isspace of one code point: the characters that str.strip() takes off.
unfoldable pub is_space : ℕ → Bool
is_space c =
    (leb 9 c && leb c 13)
    || (leb 28 c && leb c 32)
    || nat_beq c 0x85
    || nat_beq c 0xa0
    || nat_beq c 0x1680
    || (leb 0x2000 c && leb c 0x200a)
    || nat_beq c 0x2028
    || nat_beq c 0x2029
    || nat_beq c 0x202f
    || nat_beq c 0x205f
    || nat_beq c 0x3000

unfoldable pub lstrip : Text → Text
unfolding is_space
lstrip [] = []
lstrip (c ∷ t) = let rest = lstrip t in if is_space c then rest else c ∷ t

unfoldable pub rstrip : Text → Text
unfolding is_space
rstrip [] = []
rstrip (c ∷ t) = elim (rstrip t) [ [] ↦ if is_space c then [] else c ∷ [] | d ∷ r ↦ c ∷ d ∷ r ]

-- text.strip()
unfoldable pub strip : Text → Text
unfolding lstrip rstrip
strip t = rstrip (lstrip t)

-- not text
unfoldable pub is_empty : Text → Bool
is_empty [] = true
is_empty (c ∷ t) = false

-- text.startswith(prefix)
unfoldable pub starts_with : Text → Text → Bool
starts_with t [] = true
starts_with [] (p ∷ ps) = false
starts_with (c ∷ t) (p ∷ ps) = nat_beq c p && starts_with t ps

-- text.endswith(suffix): some tail of the text is the suffix.
unfoldable pub ends_with : Text → Text → Bool
unfolding list_beq
ends_with [] s = list_beq [] s
ends_with (c ∷ t) s = list_beq (c ∷ t) s || ends_with t s

-- `part in text`
unfoldable pub has_part : Text → Text → Bool
unfolding starts_with
has_part part [] = starts_with [] part
has_part part (c ∷ t) = starts_with (c ∷ t) part || has_part part t

-- text.split(): the words between white space; a word begun stands first.
unfoldable pub words_loop : Text → Text → List Text
unfolding is_space
words_loop [] [] = []
words_loop [] (w ∷ word) = (w ∷ word) ∷ []
words_loop (c ∷ t) word =
    let rest = words_loop t [] in
    let more = words_loop t (word ++ (c ∷ [])) in
    if is_space c then elim word [ [] ↦ rest | w ∷ ws ↦ (w ∷ ws) ∷ rest ] else more

unfoldable pub words : Text → List Text
words t = words_loop t []
