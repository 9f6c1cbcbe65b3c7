-- ===== src/Tests/Shell.antt =====
-- Shell inspections of src/thorn/core/_shell_inspection.py at samples.
use thorn.Prelude.{
  List, Option, Text, [], any, bool_eq, codes, contains, false, if◌then◌else◌, leb, list_beq,
  list_eq, nat_eq, none, option_eq, pair_eq, refl, some, starts_with, true, ℕ, ◌&&◌, ◌-◌, ◌∷◌, ◌≡◌,
}
use thorn.Errors.{ok}
use thorn.Core.ShellInspection.Words.{
  ShellInspectionCommand, has_shell_control, read, safe_tokens, spaced,
}
use thorn.Core.ShellInspection.Ranges.{
  int_of, parse_sed, range_end, range_start, rest_of, sed_checked, sed_lines, sed_loop,
  sed_print_range, sed_range, take_digits,
}
use thorn.Core.ShellInspection.Command.{inspect, inspect_tokens, parse_shell_inspection_command}
use thorn.Core.ShellInspection.ReadOnly.{inspection-well_formed, well_formed}

abbrev figure : ℕ → Option ℕ
figure c = if leb 48 c && leb c 57 then some (c - 48) else none

abbrev same : Text → Text
same t = t

abbrev sed_words : Text → Option (List Text)
sed_words t = some (codes "sed" ∷ codes "-n" ∷ codes "2,5p" ∷ codes "a.py" ∷ [])

abbrev sed_inspection : ShellInspectionCommand
sed_inspection = record {
  kind = read;
  command_name = codes "sed";
  normalized_command = codes "sed -n 2,5p a.py";
  path = some (codes "a.py");
  pattern = none;
  start_line = some 2;
  end_line = some 5;
  line_range_label = some (codes "2-5");
}

sed_recognized :
    parse_shell_inspection_command sed_words same figure (codes "sed -n 2,5p a.py")
    ≡ ok (some sed_inspection)
unfolding parse_shell_inspection_command inspect_tokens inspect safe_tokens has_shell_control
    contains list_beq spaced parse_sed sed_checked sed_loop sed_range sed_lines int_of
    sed_print_range range_start range_end take_digits rest_of starts_with
sed_recognized = refl

inspection-well_formed_example :
    (well_formed
        (spaced (codes "sed" ∷ codes "-n" ∷ codes "2,5p" ∷ codes "a.py" ∷ []))
        sed_inspection
      ≡ true)
    × (any has_shell_control (codes "sed" ∷ codes "-n" ∷ codes "2,5p" ∷ codes "a.py" ∷ []) ≡ false)
inspection-well_formed_example =
    inspection-well_formed sed_words same figure (codes "sed -n 2,5p a.py")
      (codes "sed" ∷ codes "-n" ∷ codes "2,5p" ∷ codes "a.py" ∷ []) sed_inspection refl
      sed_recognized
