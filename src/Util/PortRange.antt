-- ===== src/Util/PortRange.antt =====
-- The parsers of port ranges, pkg/util/util.go and pkg/process/process_manager.go.
use longhorn_engine_launcher.Prelude.{ℕ, ◌≤◌, ◌<◌, ◌≡◌, refl, ◌∙◌, some, [], ◌∷◌, ◌++◌, arith}
use longhorn_engine_launcher.Prelude.Int.{pos, to_i32, to_i32-pos}
use longhorn_engine_launcher.Prelude.Text.{Text}
use longhorn_engine_launcher.Prelude.Strings.{
  split, split-append, split-Without, trim_space, trim_space-NoSpace,
}
use longhorn_engine_launcher.Prelude.Decimal.{
  digits, digits-IsDecimal, atoi, atoi-digits, max_int, IsDecimal-NoSpace, IsDecimal-Without_dash,
}
use longhorn_engine_launcher.Util.{parse_port_range, parse_manager_port_range}

-- The port range as an operator writes it.
abbrev pub print_port_range : ℕ → ℕ → Text
print_port_range a b = digits a ++ b'-' ∷ digits b

split-print : (a b : ℕ) → split b'-' (print_port_range a b) ≡ digits a ∷ digits b ∷ []
split-print a b =
    split-append b'-' (digits a) (digits b) (IsDecimal-Without_dash _ (digits-IsDecimal a))
    ∙ rw (split-Without b'-' (digits b) (IsDecimal-Without_dash _ (digits-IsDecimal b)))

atoi-trim_space : (n : ℕ) → n ≤ max_int → atoi (trim_space (digits n)) ≡ some (pos n)
atoi-trim_space n h =
    rw (trim_space-NoSpace (digits n) (IsDecimal-NoSpace _ (digits-IsDecimal n))) (atoi-digits n h)

-- A printed range of two numbers that an int can hold is parsed, and its bounds are the numbers
-- as int32 values.
pub parse_port_range-print :
    (a b : ℕ)
    → a ≤ max_int
    → b ≤ max_int
    → parse_port_range (print_port_range a b) ≡ some (to_i32 (pos a), to_i32 (pos b))
unfolding parse_port_range
parse_port_range-print a b ha hb = rw (split-print a b, atoi-trim_space a ha, atoi-trim_space b hb)

-- The printed range of two ports below 65536 is parsed to these ports.
pub parse_port_range-ports :
    (a b : ℕ)
    → a < 65536
    → b < 65536
    → parse_port_range (print_port_range a b) ≡ some (pos a, pos b)
parse_port_range-ports a b ha hb =
    parse_port_range-print a b (omega arith) (omega arith)
    ∙ rw (to_i32-pos a (omega arith), to_i32-pos b (omega arith))

-- The two parsers of port ranges agree on every text.
pub parse_manager_port_range-eq : (s : Text) → parse_manager_port_range s ≡ parse_port_range s
unfolding parse_manager_port_range parse_port_range split
parse_manager_port_range-eq [] = refl
parse_manager_port_range-eq (c ∷ cs) = refl
