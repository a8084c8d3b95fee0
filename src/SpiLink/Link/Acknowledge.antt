-- ===== src/SpiLink/Link/Acknowledge.antt =====
-- A response of src/spi_link/transport.rs that is a header and at most a short payload.
use bindkey_esp.Base.{
  ℕ, ◌-◌, min, ◌≡◌, ◌∙◌, refl, arith, ◌==◌, Bool-cases, inl, inr, List, [], length,
  length-overwrite,
}
use bindkey_esp.SpiLink.Protocol.{Header}
use bindkey_esp.SpiLink.Link.{hdr_len, rx_len, Link, arm_response_with_arg1}
use bindkey_esp.SpiLink.Link.Staging.{IsSized}

pub arm_response_with_arg1-IsSized :
    (req : Header) (status arg1 : ℕ) (payload : List ℕ) {l : Link}
    → IsSized l
    → IsSized (arm_response_with_arg1 req status arg1 payload l)
unfolding arm_response_with_arg1
arm_response_with_arg1-IsSized req status arg1 payload {l} v =
    elim (Bool-cases (min (length payload) (rx_len - hdr_len) == 0)) [
      | inl alone ↦ rw alone (record {
        resp = length-overwrite 0 _ l.resp_buf ∙ v.resp;
        block = v.block;
        staged_fits = omega arith;
      })
      | inr with_payload ↦ rw with_payload (record {
        resp = length-overwrite _ _ _ ∙ length-overwrite 0 _ l.resp_buf ∙ v.resp;
        block = v.block;
        staged_fits = omega arith;
      })
    ]

pub resp_len-arm_response_with_arg1 :
    (req : Header) (status arg1 : ℕ) (l : Link)
    → (arm_response_with_arg1 req status arg1 [] l).resp_len ≡ hdr_len
unfolding arm_response_with_arg1
resp_len-arm_response_with_arg1 req status arg1 l = refl
