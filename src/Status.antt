-- ===== src/Status.antt =====
-- IM_STATUS of im2d_api/im2d_type.h, and the sequencing of the checks: a check that fails ends the
-- function with its status, `ret = f(...); if (ret != IM_STATUS_NOERROR) return ret;`.
use librga_rockchip.Base.{◌↔◌, ◌≡◌, refl, ◌≢◌, Bool, true, false, arith, if◌then◌else◌}
use librga_rockchip.Base.Int.{ℤ, pos, negsuc}

pub data Status : Type 0 where
  noerror success failed not_supported out_of_memory invalid_param illegal_param error_version
        no_session :
      Status

-- The number of each status. IM_STATUS_FAILED is -0.
unfoldable pub status_code : Status → ℤ
status_code noerror = pos 2
status_code success = pos 1
status_code failed = pos 0
status_code not_supported = negsuc 0
status_code out_of_memory = negsuc 1
status_code invalid_param = negsuc 2
status_code illegal_param = negsuc 3
status_code error_version = negsuc 4
status_code no_session = negsuc 5

infixl 5 ◌>>◌
abbrev pub ◌>>◌ : Status → Status → Status
noerror >> k = k
success >> k = success
failed >> k = failed
not_supported >> k = not_supported
out_of_memory >> k = out_of_memory
invalid_param >> k = invalid_param
illegal_param >> k = illegal_param
error_version >> k = error_version
no_session >> k = no_session

-- `if (c) return s;`
abbrev pub reject : Bool → Status → Status
reject c s = if c then s else noerror

-- A sequence of checks passes exactly when both parts pass.
pub >>-eq-noerror : (s k : Status) → (s >> k) ≡ noerror → (s ≡ noerror) × (k ≡ noerror)
>>-eq-noerror noerror k h = (refl, h)
>>-eq-noerror success k h = ground arith
>>-eq-noerror _ k h = ground arith

pub reject-eq-noerror : (c : Bool) (s : Status) → s ≢ noerror → reject c s ≡ noerror → c ≡ false
reject-eq-noerror true s n h = absurd (n h)
reject-eq-noerror false s n h = refl

pub >>-iff : (s k : Status) → ((s >> k) ≡ noerror) ↔ ((s ≡ noerror) × (k ≡ noerror))
>>-iff s k = (λ h. >>-eq-noerror s k h, λ (p, q). rw p q)

-- The same with what each part passing means.
pub >>-both {ℓ κ} :
    {P : Type ℓ} {Q : Type κ} (s k : Status)
    → (s ≡ noerror) ↔ P
    → (k ≡ noerror) ↔ Q
    → ((s >> k) ≡ noerror) ↔ (P × Q)
>>-both s k p q =
    (λ h. let (a, b) = (>>-iff s k).0 h in (p.0 a, q.0 b), λ (a, b). (>>-iff s k).1 (p.1 a, q.1 b))

-- A check that is made only under a condition.
pub when_iff {ℓ} :
    {P : Type ℓ} (c : Bool) (s : Status)
    → (c ≡ true → (s ≡ noerror) ↔ P)
    → ((if c then s else noerror) ≡ noerror) ↔ (c ≡ true → P)
when_iff true s p = (λ h e. (p refl).0 h, λ f. (p refl).1 (f refl))
when_iff false s p = (λ h e. absurd (ground arith), λ f. refl)
