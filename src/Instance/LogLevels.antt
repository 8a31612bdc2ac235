-- ===== src/Instance/LogLevels.antt =====
-- The log levels and flags of the instance service, pkg/instance/log.go. The level of the
-- instance manager itself is a part of the state here; the levels are those of the library logrus.
use longhorn_engine_launcher.Prelude.{Bool, [], ◌≡◌, refl}
use longhorn_engine_launcher.Prelude.Text.{Text}
use longhorn_engine_launcher.Rpc.{internal, Result, value, failure, panics, fail_as}
use longhorn_engine_launcher.Instance.{DataEngine, v1, v2}
use longhorn_engine_launcher.Instance.Operations.{dispatch, connected}

-- The SPDK client's operations on its log, behind the service's state `W`.
pub record SpdkLog (W : Type 0) : Type 0 where
  pub connects : W → Bool
  pub set_level : Text → W → W × Result (Unit {0})
  pub set_flags : Text → W → W × Result (Unit {0})
  pub get_flags : W → W × Result Text

-- ParseLevel and String of logrus, for its type of levels.
pub record Levels (Level : Type 0) : Type 0 where
  pub parse_level : Text → Result Level
  pub level_text : Level → Text

module _ {W Level : Type 0} (S : SpdkLog W) (N : Levels Level) (to_upper : Text → Text) where
  -- logSetLevel with the level that was parsed; setting the level there is already changes nothing.
  set_parsed : Result Level → Level × W → (Level × W) × Result (Unit {0})
  set_parsed (value new) (level, w) = ((new, w), value tt)
  set_parsed (failure e) (level, w) = ((level, w), failure e)
  set_parsed panics (level, w) = ((level, w), panics)

  -- An operation of the SPDK client; its errors become Internal.
  abbrev pub via_spdk_log : {A : Type 0} → (W → W × Result A) → Level × W → (Level × W) × Result A
  via_spdk_log f (level, w) =
      let x = connected (SpdkLog.connects S w) (λ y. fail_as internal (f y)) w in
      ((level, x.0), x.1)

  unfoldable pub v1_log_set_level : Text → Level × W → (Level × W) × Result (Unit {0})
  unfolding set_parsed
  v1_log_set_level level s = set_parsed (Levels.parse_level N level) s

  unfoldable pub v2_log_set_level : Text → Level × W → (Level × W) × Result (Unit {0})
  v2_log_set_level level s = via_spdk_log (SpdkLog.set_level S (to_upper level)) s

  unfoldable pub log_set_level : DataEngine → Text → Level × W → (Level × W) × Result (Unit {0})
  unfolding v1_log_set_level v2_log_set_level
  log_set_level data_engine level s =
      dispatch data_engine (v1_log_set_level level) (v2_log_set_level level) s

  -- The V1 engine has no flags.
  unfoldable pub log_set_flags : DataEngine → Text → Level × W → (Level × W) × Result (Unit {0})
  log_set_flags data_engine flags s =
      dispatch data_engine (λ x. (x, value tt)) (via_spdk_log (SpdkLog.set_flags S flags)) s

  -- Both engines answer with the level of the instance manager.
  unfoldable pub log_get_level : DataEngine → Level × W → (Level × W) × Result Text
  log_get_level data_engine s =
      dispatch data_engine (λ x. (x, value (Levels.level_text N x.0)))
        (λ x. (x, value (Levels.level_text N x.0))) s

  unfoldable pub log_get_flags : DataEngine → Level × W → (Level × W) × Result Text
  log_get_flags data_engine s =
      dispatch data_engine (λ x. (x, value [])) (via_spdk_log (SpdkLog.get_flags S)) s

  -- Setting the level for the V1 engine is seen by getting it, for either engine; setting it for the
  -- V2 engine is not seen by getting it for that engine, which answers the level there was before,
  -- whatever the SPDK engine answers.
  pub log_get_level-log_set_level :
      (text : Text) (level new : Level) (w : W)
      → Levels.parse_level N text ≡ value new
      → ((log_get_level v1 (log_set_level v1 text (level, w)).0).1
          ≡ value (Levels.level_text N new))
        × ((log_get_level v2 (log_set_level v1 text (level, w)).0).1
            ≡ value (Levels.level_text N new))
        × ((log_get_level v2 (log_set_level v2 text (level, w)).0).1
            ≡ value (Levels.level_text N level))
  unfolding log_get_level log_set_level v1_log_set_level v2_log_set_level set_parsed
  log_get_level-log_set_level text level new w h = (rw h refl, rw h refl, refl)
