-- ===== src/Examples/Texts.antt =====
-- Runs of the parsers of pkg/util and pkg/types.
use longhorn_engine_launcher.Prelude.{◌≡◌, some, arith}
use longhorn_engine_launcher.Prelude.Int.{pos}
use longhorn_engine_launcher.Util.{parse_port_range}
use longhorn_engine_launcher.Util.PortRange.{print_port_range, parse_port_range-ports}

parse_port_range-ports_example :
    parse_port_range (print_port_range 10000 10010) ≡ some (pos 10000, pos 10010)
parse_port_range-ports_example = parse_port_range-ports 10000 10010 (omega arith) (omega arith)
