-- ===== src/Ports.antt =====
-- The pool of free ports that pkg/process/process_manager.go keeps. The bitmap is a library of the
-- go-common-libs module: its two operations are parameters, with their documented behaviour as laws.
pub mod Pool
use longhorn_engine_launcher.Prelude.{
  ℕ, zero, suc, ◌+◌, ◌*◌, ◌≤◌, ◌<◌, ◌≡◌, ◌⊎◌, Bool, true, false, ◌&&◌, ◌||◌, Option, none, some,
  leb,
}
use longhorn_engine_launcher.Prelude.Int.{ℤ, pos, negsuc}

-- NewBitmap makes the pool of a range; AllocateRange gives the first and the last port and the new bitmap, `none` is its error;
-- ReleaseRange gives the new bitmap and whether it failed.
pub record PortBitmap (Bitmap : Type 0) : Type 0 where
  pub new_bitmap : ℤ → ℤ → Option Bitmap
  pub allocate_range : Bitmap → ℤ → Option (ℤ × ℤ × Bitmap)
  pub release_range : Bitmap → ℤ → ℤ → Bitmap × Bool

abbrev pub bit : Bool → ℕ
bit true = 1
bit false = 0

-- The port lies in the range from `s` to `e`.
abbrev pub covers : ℤ → ℤ → ℕ → Bool
covers (pos s) (pos e) port = leb s port && leb port e
covers _ _ port = false

-- What the manager relies on, for a pool of ports from 1 to 65535. `managed` are the ports of the
-- pool, `free` those that are not handed out.
pub record PortLaws {Bitmap : Type 0} (B : PortBitmap Bitmap) : Type 0 where
  pub managed : Bitmap → ℕ → Bool
  pub free : Bitmap → ℕ → Bool
  -- All ports of a new pool are free.
  pub new_free :
      (s e : ℤ) (b : Bitmap)
      → PortBitmap.new_bitmap B s e ≡ some b
      → (port : ℕ) → free b port ≡ managed b port
  -- A range that is handed out has the size that was asked for, and lies within the ports.
  pub allocate_size :
      (b b' : Bitmap) (n : ℕ) (s e : ℤ)
      → PortBitmap.allocate_range B b (pos (suc n)) ≡ some (s, e, b')
      → (first : ℕ) × (s ≡ pos first) × (e ≡ pos (first + n)) × (0 < first) × (first + n < 65536)
  -- It was free, and it is all that is taken.
  pub allocate_free :
      (b b' : Bitmap) (n : ℕ) (s e : ℤ)
      → PortBitmap.allocate_range B b (pos (suc n)) ≡ some (s, e, b')
      → (port : ℕ)
      → (bit (free b' port) + bit (covers s e port) ≡ bit (free b port))
        × (managed b' port ≡ managed b port)
  -- A range of the pool becomes free, and nothing else.
  pub release_free :
      (b : Bitmap) (first last : ℕ)
      → 0 < first
      → first ≤ last
      → ((port : ℕ) → first ≤ port → port ≤ last → managed b port ≡ true)
      → (port : ℕ)
      → (free (PortBitmap.release_range B b (pos first) (pos last)).0 port
          ≡ (covers (pos first) (pos last) port || free b port))
        × (managed (PortBitmap.release_range B b (pos first) (pos last)).0 port ≡ managed b port)
  -- The range from 0 to 0 stands for no ports.
  pub release_none : (b : Bitmap) → (PortBitmap.release_range B b (pos 0) (pos 0)).0 ≡ b
  -- Only ports of the pool are free.
  pub free_managed : (b : Bitmap) (port : ℕ) → free b port ≡ true → managed b port ≡ true
