-- ===== src/Util.antt =====
-- Helpers of pkg/util/util.go, pkg/util/grpcutil.go and pkg/types/types.go, and the port range
-- parser of pkg/process/process_manager.go. A panic is `none`.
pub mod PortRange
pub mod Names
pub mod Execution
pub mod Endpoint
use longhorn_engine_launcher.Prelude.{
  ℕ, ◌-◌, Bool, true, false, ◌&&◌, not, Option, none, some, List, [], ◌∷◌, ◌++◌, length, take, leb,
  ltb, if◌then◌else◌,
}
use longhorn_engine_launcher.Prelude.Int.{ℤ, to_i32}
use longhorn_engine_launcher.Prelude.Text.{Text, codes, text_eq, is_empty}
use longhorn_engine_launcher.Prelude.Strings.{split, join, trim_space, split_once}
use longhorn_engine_launcher.Prelude.Decimal.{atoi}

-- The second piece, where the text splits in exactly two.
abbrev two_pieces : List Text → Option (Text × Text)
two_pieces (a ∷ b ∷ []) = some (a, b)
two_pieces _ = none

abbrev both : Option ℤ → Option ℤ → Option (ℤ × ℤ)
both (some a) (some b) = some (to_i32 a, to_i32 b)
both _ _ = none

-- The two numbers of the pieces, each cut down to an int32.
abbrev port_bounds : Option (Text × Text) → Option (ℤ × ℤ)
port_bounds none = none
port_bounds (some (a, b)) = both (atoi (trim_space a)) (atoi (trim_space b))

-- util.ParsePortRange; `none` is its error.
unfoldable pub parse_port_range : Text → Option (ℤ × ℤ)
parse_port_range port_range = port_bounds (two_pieces (split b'-' port_range))

-- ParsePortRange of the process manager, which refuses the empty text first.
unfoldable pub parse_manager_port_range : Text → Option (ℤ × ℤ)
parse_manager_port_range port_range =
    if is_empty port_range then none else port_bounds (two_pieces (split b'-' port_range))

-- ProcessNameToVolumeName: the name without its last two pieces.
unfoldable pub process_name_to_volume_name : Text → Option Text
process_name_to_volume_name process_name =
    let slices = split b'-' process_name in
    if ltb (length slices) 2 then none else some (join b'-' (take (length slices - 2) slices))

-- The piece before the last one.
unfoldable pub second_last : List Text → Option Text
second_last [] = none
second_last (a ∷ []) = none
second_last (a ∷ b ∷ []) = some a
second_last (a ∷ b ∷ c ∷ l) = second_last (b ∷ c ∷ l)

-- GetVolumeNameSHAStrFromPath.
unfoldable pub get_volume_name_sha_str_from_path : Text → Option Text
get_volume_name_sha_str_from_path path = second_last (split b'/' path)

-- IsMountPointReadOnly, over the options of the mount point.
unfoldable pub is_mount_point_read_only : List Text → Bool
is_mount_point_read_only [] = false
is_mount_point_read_only (opt ∷ opts) =
    let rest = is_mount_point_read_only opts in if text_eq opt (codes "ro") then true else rest

-- AddTcpPrefixForAddress.
unfoldable pub add_tcp_prefix_for_address : Text → Text
add_tcp_prefix_for_address [] = []
add_tcp_prefix_for_address (c ∷ cs) = codes "tcp://" ++ c ∷ cs

abbrev supported : Text → Text → Option (Text × Text)
supported proto address =
    if not (text_eq proto (codes "unix")) && not (text_eq proto (codes "tcp"))
    then none
    else some (proto, address)

abbrev endpoint_of : Text → Option (Text × Text) → Option (Text × Text)
endpoint_of ep none = some (codes "tcp", ep)
endpoint_of ep (some (proto, [])) = some (codes "tcp", proto)
endpoint_of ep (some (proto, c ∷ cs)) = supported proto (c ∷ cs)

-- parseEndpoint: the protocol and the address; `none` is its error.
unfoldable pub parse_endpoint : Text → Option (Text × Text)
parse_endpoint ep = endpoint_of ep (split_once (codes "://") ep)
