-- ===== src/Proxy/Address.antt =====
-- Addresses of the SPDK service, pkg/proxy/proxy.go, with what it uses of Go's package net.
use longhorn_engine_launcher.Prelude.{
  ℕ, Bool, false, ◌≡◌, refl, inl, inr, not, ◌||◌, Option, none, some, [], ◌∷◌, ◌++◌, if◌then◌else◌,
  ◌==◌, Bool-cases, arith,
}
use longhorn_engine_launcher.Prelude.Text.{Text, codes}
use longhorn_engine_launcher.Prelude.Strings.{Without, split_once, strip_prefix}

-- strings.Contains for one character.
abbrev contains : ℕ → Text → Bool
contains c [] = false
contains c (x ∷ xs) = x == c || contains c xs

-- The text after '[' is cut at its first ']': what follows is a colon and the port.
after_bracket : Text → Option (Text × Text) → Option (Text × Text)
after_bracket rest none = none
after_bracket rest (some (host, [])) = none
after_bracket rest (some (host, c ∷ port)) =
    if not (c == b':') || contains b':' port || contains b'[' rest || contains b']' (c ∷ port)
    then none
    else some (host, port)

-- The text is cut at its first colon, which is the last one too.
after_colon : Text → Option (Text × Text) → Option (Text × Text)
after_colon s none = none
after_colon s (some (host, port)) =
    if contains b':' port || contains b'[' s || contains b']' s then none else some (host, port)

-- net.SplitHostPort; `none` is its error.
unfoldable pub split_host_port : Text → Option (Text × Text)
unfolding after_bracket after_colon
split_host_port [] = none
split_host_port (c ∷ cs) =
    if c == b'['
    then after_bracket cs (split_once (b']' ∷ []) cs)
    else after_colon (c ∷ cs) (split_once (b':' ∷ []) (c ∷ cs))

-- net.JoinHostPort: a host with a colon is put in brackets.
unfoldable pub join_host_port : Text → Text → Text
join_host_port host port =
    if contains b':' host then b'[' ∷ host ++ b']' ∷ b':' ∷ port else host ++ b':' ∷ port

at_spdk_port : Option (Text × Text) → Option Text
unfolding join_host_port
at_spdk_port none = none
at_spdk_port (some (host, port)) = some (join_host_port host (codes "8504"))

-- The address of the SPDK service on the host of `address`; `none` is an error.
unfoldable pub spdk_service_address : Text → Option Text
unfolding split_host_port at_spdk_port
spdk_service_address address = at_spdk_port (split_host_port address)

Without-contains : (c : ℕ) (s : Text) → Without c s → contains c s ≡ false
Without-contains c [] h = refl
Without-contains c (x ∷ xs) h = rw (h.0, Without-contains c xs h.1)

contains-Without : (c : ℕ) (s : Text) → contains c s ≡ false → Without c s
contains-Without c [] h = tt
contains-Without c (x ∷ xs) h = ground (arith, contains-Without c xs)

contains-append : (c : ℕ) (s t : Text) → contains c (s ++ t) ≡ (contains c s || contains c t)
contains-append c [] t = refl
contains-append c (x ∷ xs) t = ground (arith, contains-append c xs t)

split_once-Without :
    (c : ℕ) (s t : Text) → Without c s → split_once (c ∷ []) (s ++ c ∷ t) ≡ some (s, t)
unfolding split_once strip_prefix
split_once-Without c [] t h = ground arith
split_once-Without c (x ∷ xs) t h = ground (arith, split_once-Without c xs t h.1)

after_colon-join :
    (host port : Text)
    → Without b':' host
    → Without b'[' host
    → Without b']' host
    → Without b':' port
    → Without b'[' port
    → Without b']' port
    → after_colon (host ++ b':' ∷ port) (split_once (b':' ∷ []) (host ++ b':' ∷ port))
      ≡ some (host, port)
unfolding after_colon
after_colon-join host port hc ho he pc po pe = rw (
  split_once-Without b':' host port hc,
  after_colon,
  Without-contains b':' port pc,
  contains-append b'[' host (b':' ∷ port),
  contains-append b']' host (b':' ∷ port),
  Without-contains b'[' host ho,
  Without-contains b']' host he,
  Without-contains b'[' port po,
  Without-contains b']' port pe,
)

after_bracket-join :
    (host port : Text)
    → Without b'[' host
    → Without b']' host
    → Without b':' port
    → Without b'[' port
    → Without b']' port
    → after_bracket
        (host ++ b']' ∷ b':' ∷ port)
        (split_once (b']' ∷ []) (host ++ b']' ∷ b':' ∷ port))
      ≡ some (host, port)
unfolding after_bracket
after_bracket-join host port ho he pc po pe = rw (
  split_once-Without b']' host (b':' ∷ port) he,
  after_bracket,
  Without-contains b':' port pc,
  contains-append b'[' host (b']' ∷ b':' ∷ port),
  Without-contains b'[' host ho,
  Without-contains b'[' port po,
  Without-contains b']' port pe,
)

-- Without a bracket at its start, an address with a colon is split at the colon.
split_host_port-unbracketed :
    (host port : Text)
    → Without b'[' host
    → split_host_port (host ++ b':' ∷ port)
      ≡ after_colon (host ++ b':' ∷ port) (split_once (b':' ∷ []) (host ++ b':' ∷ port))
unfolding split_host_port
split_host_port-unbracketed [] port h = refl
split_host_port-unbracketed (c ∷ cs) port h = rw h.0

-- A host and a port, neither with brackets and the port without a colon, are split again after
-- they were joined, also if the host is an IPv6 address.
pub split_host_port-join :
    (host port : Text)
    → Without b'[' host
    → Without b']' host
    → Without b':' port
    → Without b'[' port
    → Without b']' port
    → split_host_port (join_host_port host port) ≡ some (host, port)
unfolding join_host_port
split_host_port-join host port ho he pc po pe = elim (Bool-cases (contains b':' host)) [
  | inl e ↦ rw e (unfold split_host_port in after_bracket-join host port ho he pc po pe)
  | inr e ↦ rw e (
      rw (split_host_port-unbracketed host port ho)
        (after_colon-join host port (contains-Without b':' host e) ho he pc po pe))
]

-- Whatever the port of an engine's address, the SPDK service that is called for it is that of the
-- same host at port 8504; the host may be an IPv6 address, and the parts of the address hold no
-- brackets and the port no colon.
pub spdk_service_address-join_host_port :
    (host port : Text)
    → Without b'[' host
    → Without b']' host
    → Without b':' port
    → Without b'[' port
    → Without b']' port
    → spdk_service_address (join_host_port host port) ≡ some (join_host_port host (codes "8504"))
unfolding spdk_service_address
spdk_service_address-join_host_port host port ho he pc po pe =
    rw (split_host_port-join host port ho he pc po pe, at_spdk_port) refl
