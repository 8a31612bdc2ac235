-- ===== src/Broadcaster.antt =====
-- The fan-out of updates to watchers: pkg/util/broadcaster/broadcaster.go. A channel is a number;
-- the functions are the sections under the lock, and sending to or closing a closed channel panics.

pub mod Delivery
pub mod Safety
use longhorn_engine_launcher.Prelude.{
  ℕ, zero, suc, Bool, true, false, not, ◌||◌, List, [], ◌∷◌, ◌++◌, ◌==◌, ltb, length, if◌then◌else◌,
}

pub record Channel (A : Type 0) : Type 0 where
  pub buffer : List A
  pub closed : Bool

pub record Broadcaster (A : Type 0) : Type 0 where
  pub running : Bool
  pub subs : List ℕ
  pub channels : ℕ → Channel A
  pub next_channel : ℕ  -- channels below it have been made
  pub panicked : Bool

-- The capacity of a subscriber's channel.
abbrev pub capacity : ℕ
capacity = 100

abbrev pub contains : ℕ → List ℕ → Bool
contains c [] = false
contains c (d ∷ ds) = (d == c) || contains c ds

abbrev pub remove : ℕ → List ℕ → List ℕ
remove c [] = []
remove c (d ∷ ds) = if d == c then remove c ds else d ∷ remove c ds

module _ {A : Type 0} where
  abbrev pub put : ℕ → Channel A → (ℕ → Channel A) → ℕ → Channel A
  put c x channels d = if d == c then x else channels d

  -- The send of `stream` to one channel: the channel, and whether it was full.
  abbrev pub offer : A → Channel A → Channel A × Bool
  offer item x =
      if ltb (length x.buffer) capacity
      then (record x { buffer = x.buffer ++ item ∷ [] }, false)
      else (x, true)

  abbrev pub new_broadcaster : Broadcaster A
  new_broadcaster = record {
    running = false;
    subs = [];
    channels = λ c. record { buffer = []; closed = false };
    next_channel = 0;
    panicked = false;
  }

  -- `sub := make(chan interface{}, 100)` and its registration.
  abbrev pub add_channel : Broadcaster A → Broadcaster A
  add_channel b = record b {
    subs = b.next_channel ∷ b.subs;
    channels = put b.next_channel (record { buffer = []; closed = false }) b.channels;
    next_channel = suc b.next_channel;
  }

  -- Subscribe; `connects` is whether `connect` succeeds. The result is false for its error.
  unfoldable pub subscribe : Bool → Broadcaster A → Broadcaster A × Bool
  subscribe connects b =
      if b.running
      then (add_channel b, true)
      else if connects
      then (add_channel (record b { running = true }), true)
      else (b, false)

  unfoldable pub unsub : ℕ → Broadcaster A → Broadcaster A
  unsub c b =
      if contains c b.subs
      then record b {
        subs = remove c b.subs;
        channels = put c (record (b.channels c) { closed = true }) b.channels;
        panicked = b.panicked || (b.channels c).closed;
      }
      else b

  -- The loop of `stream` over the subscribers, for one item: the slow ones are those that a
  -- goroutine is to remove.
  unfoldable pub send_to : A → List ℕ → Broadcaster A → Broadcaster A × List ℕ
  send_to item [] b = (b, [])
  send_to item (c ∷ cs) b =
      let x = offer item (b.channels c) in
      let rest = send_to item cs (record b {
        channels = put c x.0 b.channels;
        panicked = b.panicked || (b.channels c).closed;
      }) in
      (rest.0, if x.1 then c ∷ rest.1 else rest.1)

  unfoldable pub publish : A → Broadcaster A → Broadcaster A × List ℕ
  unfolding send_to
  publish item b = send_to item b.subs b

  unfoldable pub unsub_all : List ℕ → Broadcaster A → Broadcaster A
  unfolding unsub
  unsub_all [] b = b
  unsub_all (c ∷ cs) b = unsub_all cs (unsub c b)

  -- The end of `stream`, when its input is closed.
  unfoldable pub end_stream : Broadcaster A → Broadcaster A
  unfolding unsub_all
  end_stream b = record (unsub_all b.subs b) { running = false }

  abbrev pub rest_of : List A → List A
  rest_of [] = []
  rest_of (x ∷ xs) = xs

  -- A subscriber takes an item.
  unfoldable pub receive : ℕ → Broadcaster A → Broadcaster A
  receive c b = record b {
    channels = put c (record (b.channels c) { buffer = rest_of (b.channels c).buffer }) b.channels;
  }
