-- ===== src/Config/Defaults/Stable.antt =====
-- Defaults are applied once: `applyDefaults` of internal/config/config.go.
use mdbapi.Base.{◌≡◌, refl, false, [], ◌∷◌, Bool-cases, inl, inr}
use mdbapi.Base.Int.{ℤ}
use mdbapi.Strings.{Bytes}
use mdbapi.Mdb.Types.{Float, is_zero_int}
use mdbapi.Config.{Config, ServiceConfig, ServerConfig, UpdaterConfig}
use mdbapi.Config.Defaults.{
  or_text, or_int, is_zero_float, or_float, service_defaults, server_defaults, updater_defaults,
  apply_defaults,
}

or_text_idem : (s d : Bytes) → or_text (or_text s d) d ≡ or_text s d
unfolding or_text
or_text_idem [] [] = refl
or_text_idem [] (c ∷ d) = refl
or_text_idem (c ∷ s) d = refl

or_int_idem : (n d : ℤ) → or_int (or_int n d) d ≡ or_int n d
unfolding or_int
or_int_idem n d = elim (Bool-cases (is_zero_int n)) [
  | inl zero ↦ elim (Bool-cases (is_zero_int d)) [ inl e ↦ rw (zero, e) | inr e ↦ rw (zero, e) ]
  | inr set ↦ rw (set, set)
]

or_float_idem : (f d : Float) → or_float (or_float f d) d ≡ or_float f d
unfolding or_float
or_float_idem f d = elim (Bool-cases (is_zero_float f)) [
  | inl zero ↦ elim (Bool-cases (is_zero_float d)) [ inl e ↦ rw (zero, e) | inr e ↦ rw (zero, e) ]
  | inr set ↦ rw (set, set)
]

service_defaults_idem :
    (c : ServiceConfig) → service_defaults (service_defaults c) ≡ service_defaults c
service_defaults_idem c = simp (or_text_idem, or_int_idem)

server_defaults_idem : (c : ServerConfig) → server_defaults (server_defaults c) ≡ server_defaults c
server_defaults_idem c = simp (or_text_idem, or_int_idem, or_float_idem)

updater_defaults_idem :
    (c : UpdaterConfig) → updater_defaults (updater_defaults c) ≡ updater_defaults c
updater_defaults_idem c = simp (or_text_idem, or_int_idem)

-- Applying the defaults a second time changes nothing, whatever the configuration sets.
pub apply_defaults_idem : (c : Config) → apply_defaults (apply_defaults c) ≡ apply_defaults c
unfolding apply_defaults
apply_defaults_idem c = simp (or_text_idem, or_int_idem, or_float_idem)

-- the row cap is never 0
pub max_rows_set : (c : Config) → is_zero_int (apply_defaults c).api.max_rows ≡ false
unfolding apply_defaults or_int
max_rows_set c = elim (Bool-cases (is_zero_int c.api.max_rows)) [
  | inl zero ↦ rw zero
  | inr set ↦ rw (set, set)
]
