-- ===== src/SpiLink/Serve/Ready/Rounds.antt =====
-- Every round of the service loop leaves the READY line low (src/spi_link/transport.rs).
use bindkey_esp.Base.{ℕ, ◌≡◌, refl, ap, ◌∙◌, arith, Option, none, some, List, Result, EspCodes}
use bindkey_esp.MassStorage.Types.{MscApi, Sys}
use bindkey_esp.MassStorage.BlockDevice.{
  bd_status, bd_refresh_capacity, bd_read_blocks, bd_write_blocks,
}
use bindkey_esp.SpiLink.Link.{LinkSt, Peer}
use bindkey_esp.SpiLink.Serve.{serve_rounds}
use bindkey_esp.SpiLink.Serve.Kept.{IsClosed, KeptSys}
use bindkey_esp.SpiLink.Serve.Kept.Rounds.{serve_rounds-Kept}
use bindkey_esp.SpiLink.Serve.Ready.{ready_level, IsLow, Lowered}

-- Nothing was done to the outside.
unfoldable pub Quiet : {W A : Type 0} → Sys W → Option (Result A × Sys W) → Type 0
Quiet s none = Unit
Quiet s (some (r, t)) = t.effects ≡ s.effects

module _ {W : Type 0} (api : MscApi W) where
  bd_status-Quiet : (s : Sys W) → Quiet s (bd_status api s)
  unfolding bd_status Quiet
  bd_status-Quiet s = ground arith

  bd_refresh_capacity-Quiet : (s : Sys W) → Quiet s (bd_refresh_capacity api s)
  unfolding bd_refresh_capacity Quiet
  bd_refresh_capacity-Quiet s = ground arith

  bd_read_blocks-Quiet :
      (lba n : ℕ) (out : List ℕ) (s : Sys W) → Quiet s (bd_read_blocks api lba n out s)
  unfolding bd_read_blocks Quiet
  bd_read_blocks-Quiet lba n out s = ground arith

  bd_write_blocks-Quiet :
      (lba n : ℕ) (out : List ℕ) (s : Sys W) → Quiet s (bd_write_blocks api lba n out s)
  unfolding bd_write_blocks Quiet
  bd_write_blocks-Quiet lba n out s = ground arith

  IsLow-KeptSys :
      {A : Type 0} (s : LinkSt W) (o : Option (Result A × Sys W))
      → IsLow s
      → Quiet s.sys o
      → KeptSys IsLow s o
  unfolding KeptSys Quiet
  IsLow-KeptSys s none low q = tt
  IsLow-KeptSys s (some (r, t)) low q = ap ready_level q ∙ low

  pub IsLow-IsClosed : IsClosed api IsLow
  IsLow-IsClosed = record {
    unrelated = λ s t same low. ap (λ (x : Sys W). ready_level x.effects) same ∙ low;
    clocked = λ n sent s low. low;
    pulsed = λ n sent s low. refl;
    probed = λ s low. IsLow-KeptSys s _ low (bd_status-Quiet s.sys);
    refreshed = λ s low. IsLow-KeptSys s _ low (bd_refresh_capacity-Quiet s.sys);
    fetched = λ lba n out s low. IsLow-KeptSys s _ low (bd_read_blocks-Quiet lba n out s.sys);
    stored = λ lba n out s low. IsLow-KeptSys s _ low (bd_write_blocks-Quiet lba n out s.sys);
  }

-- READY is low after any number of rounds that start with it low and do not crash, whatever the
-- master sends and the drive answers: no branch, those with an error included, leaves it raised.
pub serve_rounds-Lowered :
    {W : Type 0} (api : MscApi W) (codes : EspCodes) (peer : Peer) (n : ℕ) (s : LinkSt W)
    → IsLow s
    → Lowered (serve_rounds api codes peer n s)
serve_rounds-Lowered api codes peer n s low =
    serve_rounds-Kept api codes peer (IsLow-IsClosed api) n s low
