-- ===== src/State/Sharing/Layout.antt =====
-- `SharingConfig` of src/state.rs against its layout, and the sum of its shares.
use mathlib.Core.List.{foldl}
use pump_swap_sdk.Prelude.{
  ℕ, ◌+◌, ◌*◌, ◌%◌, ◌^◌, ◌≤◌, ◌<◌, ◌≡◌, refl, ◌∙◌, List, [], ◌∷◌, ◌++◌, length, length-append, All,
  arith,
}
use pump_swap_sdk.Prelude.Bytes.{to_le, length-to_le}
use pump_swap_sdk.Prelude.Outcome.{ok}
use pump_swap_sdk.State.Reader.{vec}
use pump_swap_sdk.State.Reader.Accounts.{decode_account-Reads}
use pump_swap_sdk.State.Reader.Encoding.{
  Reads, Reads-bind, Reads-map, Reads-check, Reads-uint, Reads-bool, Reads-vec, bool_byte, concat,
}
use pump_swap_sdk.State.Sharing.{
  ConfigStatus, paused, active, Shareholder, SharingConfig, read_status, read_shareholder,
  shareholder_len, read_sharing_config, from_account_data, sharing_config_discriminator,
  total_share_bps,
}

abbrev pub status_byte : ConfigStatus → ℕ
status_byte paused = 0
status_byte active = 1

abbrev pub shareholder_bytes : Shareholder → List ℕ
shareholder_bytes h = to_le 32 h.address ++ to_le 2 h.share_bps

abbrev pub sharing_config_bytes : SharingConfig → List ℕ
sharing_config_bytes c =
    to_le 1 c.bump
    ++ (to_le 1 c.version
        ++ (to_le 1 (status_byte c.status)
            ++ (to_le 32 c.mint
                ++ (to_le 32 c.admin
                    ++ (to_le 1 (bool_byte c.admin_revoked)
                        ++ (to_le 4 (length c.shareholders)
                            ++ concat shareholder_bytes c.shareholders))))))

pub record IsShareholder (h : Shareholder) : Type 0 where
  pub address : h.address < 256 ^ 32
  pub share_bps : h.share_bps < 256 ^ 2

-- Every field fits its width.
pub record IsSharingConfig (c : SharingConfig) : Type 0 where
  pub bump : c.bump < 256 ^ 1
  pub version : c.version < 256 ^ 1
  pub mint : c.mint < 256 ^ 32
  pub admin : c.admin < 256 ^ 32
  pub shareholders : All IsShareholder c.shareholders
  pub shareholders_len : length c.shareholders < 2 ^ 32

Reads-status : (s : ConfigStatus) → Reads read_status s (to_le 1 (status_byte s))
unfolding read_status
Reads-status paused = Reads-check _ (Reads-uint 1 0 (omega arith)) (λ r. refl)
Reads-status active = Reads-check _ (Reads-uint 1 1 (omega arith)) (λ r. refl)

Reads-shareholder :
    (h : Shareholder) → IsShareholder h → Reads read_shareholder h (shareholder_bytes h)
unfolding read_shareholder
Reads-shareholder h v =
    Reads-bind _ (Reads-uint 32 h.address v.address)
      (Reads-map _ (Reads-uint 2 h.share_bps v.share_bps))

length-shareholder_bytes : (h : Shareholder) → length (shareholder_bytes h) ≡ shareholder_len
length-shareholder_bytes h = simp (length-append, length-to_le)

Reads-shareholders :
    (hs : List Shareholder)
    → length hs < 2 ^ 32
    → All IsShareholder hs
    → Reads
        (vec shareholder_len read_shareholder)
        hs
        (to_le 4 (length hs) ++ concat shareholder_bytes hs)
Reads-shareholders hs short v =
    Reads-vec shareholder_len read_shareholder shareholder_bytes IsShareholder Reads-shareholder
      (λ h k. omega (arith, length-shareholder_bytes h)) hs short v

Reads-sharing_config :
    (c : SharingConfig) → IsSharingConfig c → Reads read_sharing_config c (sharing_config_bytes c)
unfolding read_sharing_config
Reads-sharing_config c v = Reads-bind _ (Reads-uint 1 c.bump v.bump) (
    Reads-bind _ (Reads-uint 1 c.version v.version) (
      Reads-bind _ (Reads-status c.status) (
        Reads-bind _ (Reads-uint 32 c.mint v.mint) (
          Reads-bind _ (Reads-uint 32 c.admin v.admin) (
            Reads-bind _ (Reads-bool c.admin_revoked) (
              Reads-map _
                (Reads-shareholders c.shareholders v.shareholders_len v.shareholders)))))))

-- A `SharingConfig` with every field within its width and less than 2^32 shareholders, that was
-- written in the order of its fields, is decoded back with every shareholder in its place, whatever
-- bytes of older entries an account of less than 2^63 bytes has behind it.
pub from_account_data-sharing_config_bytes :
    (c : SharingConfig) (tail : List ℕ)
    → IsSharingConfig c
    → length (sharing_config_discriminator ++ (sharing_config_bytes c ++ tail)) < 2 ^ 63
    → from_account_data (sharing_config_discriminator ++ (sharing_config_bytes c ++ tail)) ≡ ok c
unfolding from_account_data
from_account_data-sharing_config_bytes c tail v fits =
    decode_account-Reads _ _ _ c (sharing_config_bytes c) tail refl fits (Reads-sharing_config c v)

-- The plain sum of the shares.
abbrev pub sum_shares : List Shareholder → ℕ
sum_shares [] = 0
sum_shares (h ∷ hs) = h.share_bps + sum_shares hs

foldl_shares :
    (hs : List Shareholder) (acc : ℕ)
    → acc + sum_shares hs < 2 ^ 32
    → foldl (λ sum h. (sum + h.share_bps) % 2 ^ 32) acc hs ≡ acc + sum_shares hs
foldl_shares [] acc h = omega arith
foldl_shares (x ∷ xs) acc h =
    let step : (acc + x.share_bps) % 2 ^ 32 ≡ acc + x.share_bps = omega arith in
    rw step (omega (arith, foldl_shares xs (acc + x.share_bps)))

sum_shares-le : (hs : List Shareholder) → All IsShareholder hs → sum_shares hs ≤ length hs * 0xffff
sum_shares-le [] v = omega arith
sum_shares-le (h ∷ hs) (v, vs) = omega (arith, v.share_bps, sum_shares-le hs vs)

-- With at most 65537 shareholders and every share a `u16`, the total is the plain sum of the shares: no `u32` overflow.
pub total_share_bps_lem :
    (c : SharingConfig)
    → IsSharingConfig c
    → length c.shareholders ≤ 65_537
    → total_share_bps c ≡ sum_shares c.shareholders
unfolding total_share_bps
total_share_bps_lem c v short =
    let fits : 0 + sum_shares c.shareholders < 2 ^ 32 =
      omega (arith, sum_shares-le c.shareholders v.shareholders) in
    foldl_shares c.shareholders 0 fits ∙ omega arith
