-- ===== src/SpiLink/Serve/Ready.antt =====
-- The READY line over the rounds of the service loop (src/spi_link/transport.rs).
pub mod Rounds
use bindkey_esp.Base.{ℕ, ◌≡◌, Option, List, [], ◌∷◌, ◌==◌, if◌then◌else◌, Result}
use bindkey_esp.MassStorage.Types.{Effect, gpio_reset, gpio_output, gpio_level, spi_transfer}
use bindkey_esp.SpiLink.Link.{LinkSt, pin_ready}
use bindkey_esp.SpiLink.Serve.Kept.{Kept}

-- The level of the READY line, from what was done last.
abbrev pub ready_level : List Effect → ℕ
ready_level [] = 0
ready_level (gpio_reset pin ∷ es) = ready_level es
ready_level (gpio_output pin ∷ es) = ready_level es
ready_level (gpio_level pin level ∷ es) = if pin == pin_ready then level else ready_level es
ready_level (spi_transfer n sent ∷ es) = ready_level es

abbrev pub IsLow : {W : Type 0} → LinkSt W → Type 0
IsLow s = ready_level s.sys.effects ≡ 0

-- The level after an action that does not crash.
abbrev pub Lowered : {W A : Type 0} → Option (Result A × LinkSt W) → Type 0
Lowered o = Kept IsLow o
