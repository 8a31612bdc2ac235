-- ===== src/Rpc.antt =====
-- The answers and errors of the gRPC services, as pkg/instance, pkg/disk and pkg/client build them.
-- The texts of error messages are left out. A call takes the state of the services it reaches and
-- returns it with a result.
use longhorn_engine_launcher.Prelude.{◌≡◌, refl, Option, List}
use longhorn_engine_launcher.Prelude.Text.{Text, codes}
use longhorn_engine_launcher.Process.{State, starting, running, stopping, stopped, error}

pub data Code : Type 0 where
  canceled unknown invalid_argument not_found unimplemented internal : Code

pub data Failure : Type 0 where
  status : Code → Failure
  plain : Text → Failure  -- an error that is not a gRPC status
  wrapped : Failure → Failure

-- `panics` is a nil dereference.
pub data Result (A : Type 0) : Type 0 where
  value : A → Result A
  failure : Failure → Result A
  panics : Result A

abbrev pub and_then : {W A C : Type 0} → W × Result A → (A → W → W × Result C) → W × Result C
and_then (w, value a) k = k a w
and_then (w, failure e) k = (w, failure e)
and_then (w, panics) k = (w, panics)

abbrev pub answer_with : {W A C : Type 0} → (A → C) → W × Result A → W × Result C
answer_with f (w, value a) = (w, value (f a))
answer_with f (w, failure e) = (w, failure e)
answer_with f (w, panics) = (w, panics)

-- An error becomes a status of its own.
abbrev pub fail_as : {W A : Type 0} → Code → W × Result A → W × Result A
fail_as c (w, value a) = (w, value a)
fail_as c (w, failure e) = (w, failure (status c))
fail_as c (w, panics) = (w, panics)

-- errors.Wrap.
abbrev pub fail_wrapped : {W A : Type 0} → W × Result A → W × Result A
fail_wrapped (w, value a) = (w, value a)
fail_wrapped (w, failure e) = (w, failure (wrapped e))
fail_wrapped (w, panics) = (w, panics)

-- A stream of log lines: they come in order, and then the end of the stream or an error.
pub record LogStream : Type 0 where
  pub lines : List Text
  pub ending : Option Failure

unfoldable pub state_name : State → Text
state_name running = codes "running"
state_name starting = codes "starting"
state_name stopped = codes "stopped"
state_name stopping = codes "stopping"
state_name error = codes "error"

pub value_eq :
    {W A : Type 0} {w x : W} {a c : A} → ◌≡◌ {A = W × Result A} (w, value a) (x, value c) → a ≡ c
value_eq h = cc

pub and_then-value :
    {W A C : Type 0} (r : W × Result A) (k : A → W → W × Result C) (x : W) (c : C)
    → and_then r k ≡ (x, value c)
    → (y : W) × (a : A) × (r ≡ (y, value a)) × (k a y ≡ (x, value c))
and_then-value (w, value a) k x c h = (w, a, refl, h)
and_then-value (w, failure e) k x c h = cc
and_then-value (w, panics) k x c h = cc

pub answer_with-value :
    {W A C : Type 0} (f : A → C) (r : W × Result A) (x : W) (c : C)
    → answer_with f r ≡ (x, value c)
    → (a : A) × (r ≡ (x, value a)) × (f a ≡ c)
answer_with-value f (w, value a) x c h = (a, cc, cc)
answer_with-value f (w, failure e) x c h = cc
answer_with-value f (w, panics) x c h = cc

-- A failure, if the call fails, is a status with the code `c`.
unfoldable pub FailsAs : {W A : Type 0} → Code → W × Result A → Type 0
FailsAs c (w, value a) = Unit
FailsAs c (w, failure e) = e ≡ status c
FailsAs c (w, panics) = Unit

pub fail_as-FailsAs : {W A : Type 0} (c : Code) (r : W × Result A) → FailsAs c (fail_as c r)
unfolding FailsAs
fail_as-FailsAs c (w, value a) = tt
fail_as-FailsAs c (w, failure e) = refl
fail_as-FailsAs c (w, panics) = tt

pub value-FailsAs : {W A : Type 0} (c : Code) (w : W) (a : A) → FailsAs c (w, value a)
unfolding FailsAs
value-FailsAs c w a = tt

pub and_then-FailsAs :
    {W A C : Type 0} (c : Code) (r : W × Result A) (k : A → W → W × Result C)
    → FailsAs c r
    → ((a : A) (x : W) → FailsAs c (k a x))
    → FailsAs c (and_then r k)
unfolding FailsAs
and_then-FailsAs c (w, value a) k h g = g a w
and_then-FailsAs c (w, failure e) k h g = h
and_then-FailsAs c (w, panics) k h g = tt

pub answer_with-FailsAs :
    {W A C : Type 0} (c : Code) (f : A → C) (r : W × Result A)
    → FailsAs c r
    → FailsAs c (answer_with f r)
unfolding FailsAs
answer_with-FailsAs c f (w, value a) h = tt
answer_with-FailsAs c f (w, failure e) h = h
answer_with-FailsAs c f (w, panics) h = tt
