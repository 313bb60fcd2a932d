-- ===== src/Tests/StandIn.antt =====
-- A simple stand-in for solana_sdk and spl_token, which src/instruction.rs and src/client.rs call, with
-- pools and draws for the tests.
use pump_swap_sdk.Prelude.{
  ℕ, ◌+◌, ◌*◌, true, false, [], ◌∷◌, none, some, ◌==◌, if◌then◌else◌, length, replicate,
}
use pump_swap_sdk.Prelude.Int.{pos}
use pump_swap_sdk.Constants.{wrapped_sol_mint}
use pump_swap_sdk.State.Pool.{PoolInfo}
use pump_swap_sdk.Solana.{Solana, Instruction, new}
use pump_swap_sdk.Instruction.Swap.{Draws}
use pump_swap_sdk.Client.Trade.{Randomness}

abbrev pub empty_ix : Instruction
empty_ix = record { program_id = 0; accounts = []; payload = [] }

-- An instruction that one key must sign.
abbrev pub signed_ix : ℕ → Instruction
signed_ix key = record { program_id = 0; accounts = new key true ∷ []; payload = [] }

-- Accounts close on the program 6 and on no other.
instance abbrev pub stand_in : Solana
stand_in = record {
  find_program_address = λ seeds program. (length seeds + program, 255);
  create_with_seed = λ key seed owner. some (key + length seed);
  base58 = λ bytes. bytes;
  get_associated_token_address_with_program_id = λ wallet mint program. wallet + mint + program;
  get_associated_token_address = λ wallet mint. wallet + mint + 6;
  system_program_id = 5;
  spl_token_id = 6;
  spl_token_2022_id = 7;
  associated_token_id = 8;
  create_associated_token_account_idempotent = λ payer wallet mint program. signed_ix payer;
  create_account_with_seed = λ from to key seed lamports space owner. signed_ix from;
  transfer = λ from to lamports. signed_ix from;
  initialize_account = λ program account mint owner. some empty_ix;
  close_account = λ program account to owner. if program == 6 then some (signed_ix owner) else none;
  sync_native = λ program account. some empty_ix;
  minimum_balance = λ size. size * 6_960;
  token_account_len = 165;
  set_compute_unit_limit = λ units. empty_ix;
  set_compute_unit_price = λ price. empty_ix;
}

abbrev pub pool : PoolInfo
pool = record {
  pool = 99;
  pool_account_data_len = 245;
  base_mint = 12;
  quote_mint = wrapped_sol_mint;
  lp_mint = 13;
  pool_base_token_account = 14;
  pool_quote_token_account = 15;
  creator = 11;
  coin_creator = 16;
  is_mayhem_mode = false;
  is_cashback_coin = true;
  virtual_quote_reserves = pos 0;
  creator_fee_bps = 0;
  is_holder_reward = false;
  protocol_fees = 0;
  creator_fees = 0;
  base_token_program = 7;
  quote_token_program = 6;
}

abbrev pub plain_pool : PoolInfo
plain_pool = record {
  pool = 99;
  pool_account_data_len = 301;
  base_mint = 12;
  quote_mint = wrapped_sol_mint;
  lp_mint = 13;
  pool_base_token_account = 14;
  pool_quote_token_account = 15;
  creator = 11;
  coin_creator = 0;
  is_mayhem_mode = false;
  is_cashback_coin = false;
  virtual_quote_reserves = pos 0;
  creator_fee_bps = 0;
  is_holder_reward = false;
  protocol_fees = 0;
  creator_fees = 0;
  base_token_program = 6;
  quote_token_program = 6;
}

abbrev pub draws : Draws
draws = record { protocol = 3; buyback = 10 }

abbrev pub random : Randomness
random = record { seed_bytes = replicate 32 1; draws = draws }
