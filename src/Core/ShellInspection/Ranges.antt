-- ===== src/Core/ShellInspection/Ranges.antt =====
-- Line counts and line ranges of src/thorn/core/_shell_inspection.py. The value of a decimal digit by
-- Unicode is a parameter.
use thorn.Prelude.{
  Bool, List, Option, Text, [], codes, contains, false, if◌then◌else◌, length, list_eq, ltb, nat_eq,
  none, option_eq, some, starts_with, suc, true, zero, ℕ, ◌%◌, ◌&&◌, ◌*◌, ◌++◌, ◌+◌, ◌/◌, ◌==◌, ◌∷◌,
}
use thorn.Errors.{Result, err, ok, value_error, ◌>>=◌}
use thorn.Core.ShellInspection.Words.{ShellInspectionCommand, read}

-- str(n): the digits of n, on fuel n + 1.
abbrev digits : ℕ → ℕ → Text
digits zero n = []
digits (suc fuel) n =
    let rest = digits fuel (n / 10) in
    if ltb n 10 then (48 + n) ∷ [] else rest ++ ((48 + n % 10) ∷ [])

abbrev pub decimal : ℕ → Text
decimal n = digits (suc n) n

abbrev pub range_label : ℕ → ℕ → Text
range_label start end = decimal start ++ (codes "-" ++ decimal end)

-- The loop of _parse_sed: whether the next token is a script, then quiet, script and operands.
-- None: it returned None.
unfoldable pub sed_loop :
    List Text → Bool → Bool → Option Text → List Text → Option (Bool × Option Text × List Text)
unfolding contains
sed_loop [] true quiet script operands = none
sed_loop [] false quiet script operands = some (quiet, script, operands)
sed_loop (token ∷ rest) true quiet script operands = sed_loop rest false quiet (some token) operands
sed_loop (token ∷ rest) false quiet script operands =
    elim (contains token (codes "-n" ∷ codes "--quiet" ∷ codes "--silent" ∷ [])) [
      | true ↦ sed_loop rest false true script operands
      | false ↦ elim (token == codes "-e") [
        | true ↦ sed_loop rest true quiet script operands
        | false ↦ elim (starts_with token (codes "-")) [
          | true ↦ none
          | false ↦ elim script [
            | none ↦ sed_loop rest false quiet (some token) operands
            | some s ↦ sed_loop rest false quiet (some s) (operands ++ (token ∷ []))
          ]
        ]
      ]
    ]

-- text[1:]
unfoldable pub rest_of : Text → Text
rest_of [] = []
rest_of (c ∷ t) = t

unfoldable pub head_of : Text → ℕ × List Text → Option ShellInspectionCommand
head_of normalized_command (line_count, path ∷ []) = some (record {
  kind = read;
  command_name = codes "head";
  normalized_command = normalized_command;
  path = some path;
  pattern = none;
  start_line = some 1;
  end_line = some line_count;
  line_range_label = some (range_label 1 line_count);
})
head_of normalized_command _ = none

unfoldable pub tail_of : Text → ℕ × List Text → Option ShellInspectionCommand
tail_of normalized_command (line_count, path ∷ []) = some (record {
  kind = read;
  command_name = codes "tail";
  normalized_command = normalized_command;
  path = some path;
  pattern = none;
  start_line = none;
  end_line = none;
  line_range_label = some (codes "last " ++ decimal line_count);
})
tail_of normalized_command _ = none

abbrev numeral : ℕ → List ℕ → ℕ
numeral n [] = n
numeral n (d ∷ ds) = numeral (10 * n + d) ds

-- int(text) of decimal characters: Python's limit is 4300 of them.
unfoldable pub int_of : List ℕ → Result ℕ
int_of ds = if ltb 4300 (length ds) then err value_error else ok (numeral 0 ds)

-- After the comma: a number and the end.
unfoldable pub range_end : List ℕ → List ℕ × Text → Option (List ℕ × Option (List ℕ))
range_end start ([], rest) = none
range_end start (e ∷ es, rest) = if rest == codes "p" then some (start, some (e ∷ es)) else none

unfoldable pub sed_lines : Text → Text → ℕ → ℕ → Option ShellInspectionCommand
sed_lines normalized_command path start end =
    if ltb end start
    then none
    else some (record {
      kind = read;
      command_name = codes "sed";
      normalized_command = normalized_command;
      path = some path;
      pattern = none;
      start_line = some start;
      end_line = some end;
      line_range_label = some (range_label start end);
    })

-- The range of lines that a matching script prints; int may raise.
unfoldable pub sed_range :
    Text → Text → Option (List ℕ × Option (List ℕ)) → Result (Option ShellInspectionCommand)
sed_range normalized_command path none = ok none
sed_range normalized_command path (some (start, end)) = int_of start >>= λ first.
    int_of (elim end [ none ↦ start | some e ↦ e ]) >>= λ last.
    ok (sed_lines normalized_command path first last)

unfoldable pub positive : Result ℕ → Option ℕ
positive (ok zero) = none
positive (ok (suc n)) = some (suc n)
positive (err e) = none

unfoldable pub whole_number : List ℕ × Text → Option ℕ
whole_number (d ∷ ds, []) = positive (int_of (d ∷ ds))
whole_number _ = none

-- digit_value gives a decimal character its value, and no other character one.
module _ (digit_value : ℕ → Option ℕ) where
  -- The decimal characters a text starts with, as values, and the rest.
  unfoldable pub take_digits : Text → List ℕ × Text
  take_digits [] = ([], [])
  take_digits (c ∷ t) = elim (digit_value c) [
    | none ↦ ([], c ∷ t)
    | some d ↦ (d ∷ (take_digits t).0, (take_digits t).1)
  ]

  unfoldable pub range_start : List ℕ × Text → Option (List ℕ × Option (List ℕ))
  range_start ([], rest) = none
  range_start (d ∷ ds, rest) =
      let more = range_end (d ∷ ds) (take_digits (rest_of rest)) in
      if rest == codes "p"
      then some (d ∷ ds, none)
      else if starts_with rest (codes ",")
      then more
      else none

  -- The groups of _SED_PRINT_RANGE_RE.fullmatch(script).
  unfoldable pub sed_print_range : Text → Option (List ℕ × Option (List ℕ))
  sed_print_range script = range_start (take_digits script)

  unfoldable pub sed_checked :
      Text → Option (Bool × Option Text × List Text) → Result (Option ShellInspectionCommand)
  sed_checked normalized_command (some (true, some script, path ∷ [])) =
      sed_range normalized_command path (sed_print_range script)
  sed_checked normalized_command _ = ok none

  unfoldable pub parse_sed : List Text → Text → Result (Option ShellInspectionCommand)
  parse_sed args normalized_command =
      sed_checked normalized_command (sed_loop args false false none [])

  -- _parse_positive_int: isdecimal and int; a ValueError of int is None.
  unfoldable pub parse_positive_int : Text → Option ℕ
  parse_positive_int t = whole_number (take_digits t)

  -- The loop of _line_count_and_operands; expect: the token is the value of -n.
  unfoldable pub line_count_loop : List Text → Bool → ℕ → List Text → ℕ × List Text
  line_count_loop [] true line_count operands = (line_count, [])
  line_count_loop [] false line_count operands = (line_count, operands)
  line_count_loop (token ∷ rest) true line_count operands = elim (parse_positive_int token) [
    | none ↦ (line_count, [])
    | some n ↦ line_count_loop rest false n operands
  ]
  line_count_loop (token ∷ rest) false line_count operands = elim (token == codes "--") [
    | true ↦ (line_count, operands ++ rest)
    | false ↦ elim (token == codes "-n") [
      | true ↦ line_count_loop rest true line_count operands
      | false ↦ elim (starts_with token (codes "-") && ltb 1 (length token)) [
        | true ↦ elim (parse_positive_int (rest_of token)) [
          | none ↦ (line_count, [])
          | some n ↦ line_count_loop rest false n operands
        ]
        | false ↦ line_count_loop rest false line_count (operands ++ (token ∷ []))
      ]
    ]
  ]

  -- _line_count_and_operands with its default of 10
  unfoldable pub line_count_and_operands : List Text → ℕ × List Text
  line_count_and_operands args = line_count_loop args false 10 []

  unfoldable pub parse_head : List Text → Text → Option ShellInspectionCommand
  parse_head args normalized_command = head_of normalized_command (line_count_and_operands args)

  unfoldable pub parse_tail : List Text → Text → Option ShellInspectionCommand
  parse_tail args normalized_command = tail_of normalized_command (line_count_and_operands args)
