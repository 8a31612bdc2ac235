-- ===== src/Manager/Streams/Order.antt =====
-- What ProcessLog of pkg/process/process_manager.go sends, in which order, and that it ends.
use longhorn_engine_launcher.Prelude.{ℕ, ◌≡◌, Option, none, some, List, [], ◌∷◌, ◌++◌, length}
use longhorn_engine_launcher.Prelude.Text.{Text}
use longhorn_engine_launcher.Manager.Streams.{
  Reader, scanning, selecting, sending, ended, ranging, holding, signalling, returned, Stream,
  stream,
}

-- The lines that the reader has not passed on.
abbrev unread : Reader → List Text
unread (scanning rest) = rest
unread (selecting a rest) = a ∷ rest
unread (sending a rest) = a ∷ rest
unread ended = []

module _ {E : Type 0} (sends : ℕ → Option E) (lines : List Text) where
  -- The lines were sent in their order, without a gap, up to where the handler is.
  abbrev pub IsInOrder : Stream E → Type 0
  IsInOrder (stream r ranging l) = lines ≡ l ++ unread r
  IsInOrder (stream r (holding a) l) = lines ≡ l ++ (a ∷ unread r)
  IsInOrder (stream r (signalling e) l) =
      (rest : List Text) × (lines ≡ l ++ rest) × (sends (length l) ≡ some e)
  IsInOrder (stream r (returned none) l) = (lines ≡ l) × (r ≡ ended)
  IsInOrder (stream r (returned (some e)) l) =
      (rest : List Text) × (lines ≡ l ++ rest) × (sends (length l) ≡ some e)
