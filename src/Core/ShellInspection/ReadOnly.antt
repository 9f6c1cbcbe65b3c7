-- ===== src/Core/ShellInspection/ReadOnly.antt =====
-- What a recognized inspection of src/thorn/core/_shell_inspection.py is, and what it may still run.
use thorn.Prelude.{
  ==_refl, Bool, Bool-cases, List, Option, Text, [], any, ap, arith, codes, contains, false, inl,
  inr, leb, length, list_beq, list_eq, ltb, nat_eq, none, option_eq, refl, some, starts_with, suc,
  sym, true, zero, ℕ, ◌&&◌, ◌++◌, ◌==◌, ◌∙◌, ◌∷◌, ◌≡◌, ◌≤◌,
}
use thorn.Errors.{Result, err, ok, ◌>>=◌}
use thorn.Core.ShellInspection.Words.{
  ShellInspectionCommand, carries_value, has_shell_control, operands_after_options, operands_loop,
  parse_cat, parse_search, read, safe_tokens, search_path, searching, spaced,
  unsupported_pattern_option,
}
use thorn.Core.ShellInspection.Ranges.{
  head_of, int_of, line_count_and_operands, line_count_loop, parse_head, parse_positive_int,
  parse_sed, parse_tail, positive, rest_of, sed_checked, sed_lines, sed_loop, sed_print_range,
  sed_range, tail_of, take_digits, whole_number,
}
use thorn.Core.ShellInspection.Command.{inspect, inspect_tokens, parse_shell_inspection_command}

-- A command that names one path, whose text is the given words, and whose lines do not run backwards.
abbrev in_order : Option ℕ → Option ℕ → Bool
in_order (some start) (some end) = leb start end
in_order _ _ = true

abbrev is_some {ℓ} : {A : Type ℓ} → Option A → Bool
is_some none = false
is_some (some a) = true

unfoldable pub well_formed : Text → ShellInspectionCommand → Bool
well_formed normalized i =
    (i.normalized_command == normalized) && is_some i.path && in_order i.start_line i.end_line

-- The same of a result that may be none.
abbrev fits : Text → Option ShellInspectionCommand → Bool
fits normalized none = true
fits normalized (some i) = well_formed normalized i

cat-fits : (args : List Text) (n : Text) → fits n (parse_cat args n) ≡ true
unfolding parse_cat well_formed
cat-fits args n = ground (arith, ==_refl n)

searching-fits :
    (n c pattern : Text) (path : Option Text) → fits n (searching c n pattern path) ≡ true
unfolding searching well_formed
searching-fits n c pattern none = refl
searching-fits n c pattern (some path) = ground (arith, ==_refl n)

operands-fits :
    (n c : Text) (default_path : Option Text) (operands : List Text)
    → fits n (elim operands [
      | [] ↦ none
      | pattern ∷ paths ↦ searching c n pattern (search_path paths default_path)
    ])
      ≡ true
operands-fits n c default_path [] = refl
operands-fits n c default_path (pattern ∷ paths) =
    searching-fits n c pattern (search_path paths default_path)

search-fits :
    (args : List Text) (n c : Text) (default_path : Option Text)
    → fits n (parse_search args n c default_path) ≡ true
unfolding parse_search
search-fits args n c default_path = elim (Bool-cases (any unsupported_pattern_option args)) [
  | inl unsupported ↦ rw (unsupported) refl
  | inr plain ↦ rw (plain) (operands-fits n c default_path (operands_after_options args))
]

-- A result without an error fits.
abbrev safe : Text → Result (Option ShellInspectionCommand) → Bool
safe n (ok i) = fits n i
safe n (err e) = true

tail-fits : (n : Text) (parsed : ℕ × List Text) → fits n (tail_of n parsed) ≡ true
unfolding tail_of well_formed
tail-fits n (count, []) = refl
tail-fits n (count, p ∷ []) = ground (arith, ==_refl n)
tail-fits n (count, p ∷ q ∷ rest) = refl

head-fits : (n : Text) (parsed : ℕ × List Text) → 1 ≤ parsed.0 → fits n (head_of n parsed) ≡ true
unfolding head_of well_formed
head-fits n (count, []) h = refl
head-fits n (count, p ∷ []) h = ground (arith, ==_refl n, h)
head-fits n (count, p ∷ q ∷ rest) h = refl

lines-fits : (n path : Text) (start end : ℕ) → fits n (sed_lines n path start end) ≡ true
unfolding sed_lines well_formed
lines-fits n path start end = ground (arith, ==_refl n)

ordered-safe :
    (n path : Text) (start end : Result ℕ)
    → safe n (start >>= λ first. end >>= λ last. ok (sed_lines n path first last)) ≡ true
ordered-safe n path (ok first) (ok last) = lines-fits n path first last
ordered-safe n path (ok first) (err e) = refl
ordered-safe n path (err e) end = refl

range-safe :
    (n path : Text) (range : Option (List ℕ × Option (List ℕ)))
    → safe n (sed_range n path range) ≡ true
unfolding sed_range
range-safe n path none = refl
range-safe n path (some (start, end)) =
    ordered-safe n path (int_of start) (int_of (elim end [ none ↦ start | some e ↦ e ]))

positive-one : (r : Result ℕ) (k : ℕ) → positive r ≡ some k → 1 ≤ k
unfolding positive
positive-one (ok zero) k h = cc
positive-one (ok (suc m)) k h = ground (arith, h)
positive-one (err e) k h = cc

whole_number-one : (parsed : List ℕ × Text) (k : ℕ) → whole_number parsed ≡ some k → 1 ≤ k
unfolding whole_number
whole_number-one ([], t) k h = cc
whole_number-one (d ∷ ds, []) k h = positive-one (int_of (d ∷ ds)) k h
whole_number-one (d ∷ ds, c ∷ t) k h = cc

-- A line count that is positive.
abbrev Counted : ℕ × List Text → Type 0
Counted parsed = 1 ≤ parsed.0

number-one :
    (o : Option ℕ) (count : ℕ) (next : ℕ → ℕ × List Text)
    → ((k : ℕ) → o ≡ some k → 1 ≤ (next k).0)
    → 1 ≤ count
    → Counted (elim o [ none ↦ (count, []) | some n ↦ next n ])
number-one none count next later h = h
number-one (some k) count next later h = later k refl

choice-one :
    (b : Bool) (x y : ℕ × List Text) → 1 ≤ x.0 → 1 ≤ y.0 → Counted (elim b [ true ↦ x | false ↦ y ])
choice-one true x y hx hy = hx
choice-one false x y hx hy = hy

module _ (digit_value : ℕ → Option ℕ) where
  checked-safe :
      (n : Text) (scanned : Option (Bool × Option Text × List Text))
      → safe n (sed_checked digit_value n scanned) ≡ true
  unfolding sed_checked
  checked-safe n none = refl
  checked-safe n (some (false, script, operands)) = refl
  checked-safe n (some (true, none, operands)) = refl
  checked-safe n (some (true, some script, [])) = refl
  checked-safe n (some (true, some script, p ∷ [])) =
      range-safe n p (sed_print_range digit_value script)
  checked-safe n (some (true, some script, p ∷ q ∷ rest)) = refl

  number-Counted :
      (t : Text) (count : ℕ) (next : ℕ → ℕ × List Text)
      → ((k : ℕ) → 1 ≤ k → 1 ≤ (next k).0)
      → 1 ≤ count
      → Counted (elim (parse_positive_int digit_value t) [ none ↦ (count, []) | some n ↦ next n ])
  unfolding parse_positive_int
  number-Counted t count next later h =
      number-one (whole_number (take_digits digit_value t)) count next
        (λ k found. later k (whole_number-one (take_digits digit_value t) k found)) h

  count-one :
      (args : List Text) (expect : Bool) (count : ℕ) (operands : List Text)
      → 1 ≤ count
      → 1 ≤ (line_count_loop digit_value args expect count operands).0
  unfolding line_count_loop
  count-one [] true count operands h = h
  count-one [] false count operands h = h
  count-one (t ∷ rest) true count operands h =
      number-Counted t count (λ k. line_count_loop digit_value rest false k operands)
        (λ k. count-one rest false k operands) h
  count-one (t ∷ rest) false count operands h =
      choice-one (t == codes "--") (count, operands ++ rest) _ h
        (choice-one (t == codes "-n") _ _ (count-one rest true count operands h) (
          choice-one (starts_with t (codes "-") && ltb 1 (length t)) _ _
            (number-Counted (rest_of t) count
              (λ k. line_count_loop digit_value rest false k operands)
              (λ k. count-one rest false k operands) h)
            (count-one rest false count (operands ++ (t ∷ [])) h)))

  inspect-safe :
      (c : Text) (args : List Text) (n : Text) → safe n (inspect digit_value c args n) ≡ true
  unfolding inspect parse_sed parse_head parse_tail line_count_and_operands
  inspect-safe c args n = ground (
    arith,
    cat-fits args n,
    checked-safe n (sed_loop args false false none []),
    head-fits n (line_count_loop digit_value args false 10 [])
        (count-one args false 10 [] (omega arith)),
    tail-fits n (line_count_loop digit_value args false 10 []),
    search-fits args n (codes "grep") none,
    search-fits args n (codes "rg") (some (codes ".")),
  )

lone_operand :
    (word : Text)
    → starts_with word (codes "-") ≡ false
    → operands_after_options (word ∷ []) ≡ word ∷ []
unfolding operands_after_options operands_loop carries_value contains list_beq starts_with
lone_operand [] h = refl
lone_operand (c ∷ t) h = ground (arith, h)

ok_none : {i : ShellInspectionCommand} → ok none ≡ ok (some i) → ⊥
ok_none h = cc

module _ (split : Text → Option (List Text)) (lower : Text → Text)
    (digit_value : ℕ → Option ℕ) where
  tokens-safe :
      (tokens : List Text) → safe (spaced tokens) (inspect_tokens lower digit_value tokens) ≡ true
  unfolding inspect_tokens
  tokens-safe [] = refl
  tokens-safe (t ∷ tokens) = inspect-safe digit_value (lower t) tokens (spaced (t ∷ tokens))

  -- A recognized inspection names a path, its normalized command is the words that shlex splits the
  -- command into, none of which has a control character, and its lines do not run backwards.
  pub inspection-well_formed :
      (command : Text) (words : List Text) (i : ShellInspectionCommand)
      → split command ≡ some words
      → parse_shell_inspection_command split lower digit_value command ≡ ok (some i)
      → (well_formed (spaced words) i ≡ true) × (any has_shell_control words ≡ false)
  unfolding parse_shell_inspection_command safe_tokens inspect_tokens
  inspection-well_formed command words i splits h =
      elim (Bool-cases (any has_shell_control words)) [
        | inl control ↦
            (let empty : safe_tokens (split command) ≡ [] =
                rw (safe_tokens, splits, control) refl in
              let nothing : parse_shell_inspection_command split lower digit_value command
                  ≡ ok none =
                rw (empty) refl in
              absurd (ok_none (sym nothing ∙ h)))
        | inr plain ↦
            (let all : safe_tokens (split command) ≡ words = rw (safe_tokens, splits, plain) refl in
              let found : inspect_tokens lower digit_value words ≡ ok (some i) = rw (sym all) h in
              (ap (safe (spaced words)) (sym found) ∙ tokens-safe words, plain))
      ]

  -- Where shlex splits a command into cat, by str.lower, and one more word that does not start with a
  -- dash, and neither has a control character, the command is recognized as reading that word, also
  -- if the word is `$(reboot)` or a newline stands between the two.
  inspection-cat :
      (command name word : Text)
      → split command ≡ some (name ∷ word ∷ [])
      → lower name ≡ codes "cat"
      → any has_shell_control (name ∷ word ∷ []) ≡ false
      → starts_with word (codes "-") ≡ false
      → parse_shell_inspection_command split lower digit_value command
        ≡ ok (
            some (record {
              kind = read;
              command_name = codes "cat";
              normalized_command = spaced (name ∷ word ∷ []);
              path = some word;
              pattern = none;
              start_line = none;
              end_line = none;
              line_range_label = none;
            }))
  unfolding parse_shell_inspection_command safe_tokens inspect_tokens inspect parse_cat list_beq
  inspection-cat command name word splits is_cat plain operand =
      rw (splits, plain, is_cat) (rw (parse_cat, lone_operand word operand) refl)
