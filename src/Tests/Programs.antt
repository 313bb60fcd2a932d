-- ===== src/Tests/Programs.antt =====
-- Concrete runs of the programs of examples, over the stand-in for the libraries.
use native.Mathlib.Nat.{le_refl}
use pump_swap_sdk.Prelude.{ℕ, ◌*◌, ◌≡◌, refl, List, [], ◌∷◌, Option, none, some, length, map, arith}
use pump_swap_sdk.Prelude.Outcome.{Result, ok, err, rpc_failed}
use pump_swap_sdk.Math.Binary64.{F64}
use pump_swap_sdk.Math.Binary64.Arithmetic.{binary64}
use pump_swap_sdk.Util.Jito.{JitoPool}
use pump_swap_sdk.Util.Load.{GetOwners, load_pool}
use pump_swap_sdk.Util.Load.Programs.{load_pool-account_bytes}
use pump_swap_sdk.Client.Balance.{failed, parse_u64, digits_from}
use pump_swap_sdk.Client.Chain.Store.{reads}
use pump_swap_sdk.Examples.Settings.{
  Parsers, is_whitespace, split, trim_start, trim_end, trimmed, entries,
}
use pump_swap_sdk.Examples.Settings.Entries.{Padded, IsEntry, joined, entry_of, entries-joined}
use pump_swap_sdk.Examples.BatchBuy
use pump_swap_sdk.Examples.BatchBuy.{parse_keypairs, batch_buy, batch_from, returned}
use pump_swap_sdk.Examples.BatchBuy.Free.{IsFree}
use pump_swap_sdk.Examples.BatchBuy.Deliveries.{
  timeline, schedule, Clock, delivered, clients_of, asleep, before_error, first_error, looked_at,
  pauses, attempts,
}
use pump_swap_sdk.Examples.BatchBuy.Rotation.{rotation, batch_from-rotation}
use pump_swap_sdk.Examples.BatchBuy.Program.{Own, batch_buy_lem, batch_buy-Own}
use pump_swap_sdk.Examples.Runner
use pump_swap_sdk.Examples.Runner.{claim_and_sweep}
use pump_swap_sdk.Examples.Runner.Reserve.{Sweeps, claimed, claim_and_sweep-Sweeps}
use pump_swap_sdk.Tests.Accounts.{zeros, pool-IsPool, trailing-IsTrailing}
use pump_swap_sdk.Tests.Accounts
use pump_swap_sdk.Tests.StandIn.{stand_in, random}
use pump_swap_sdk.Tests.Store.{store, known, pool_data}
use pump_swap_sdk.Tests.Calls.{documented, node}

-- Parsers that know one pool, whatever the text, and key pairs by the length of their text.
abbrev parsers : Parsers F64 ℕ
parsers = record {
  to_pubkey = λ text. some 99;
  to_f64 = λ text. none;
  to_lamports = λ text. none;
  from_base58_string = λ text. some 1;
  base58_bytes = λ text. some text;
  to_keypair = λ bytes. some (length bytes);
  pubkey_of = λ pair. pair;
}

-- "a, bb"
abbrev two_entries : List Padded
two_entries =
    record { before = []; first = b'a'; others = []; after = [] }
    ∷ record { before = b' ' ∷ []; first = b'b'; others = b'b' ∷ []; after = [] }
    ∷ []

first-IsEntry : IsEntry (record { before = []; first = b'a'; others = []; after = [] })
unfolding is_whitespace trim_end
first-IsEntry = record {
  blank_before = tt;
  blank_after = tt;
  starts = refl;
  ends = refl;
  no_comma = (refl, tt);
}

second-IsEntry :
    IsEntry (record { before = b' ' ∷ []; first = b'b'; others = b'b' ∷ []; after = [] })
unfolding is_whitespace trim_end
second-IsEntry = record {
  blank_before = (refl, tt);
  blank_after = tt;
  starts = refl;
  ends = refl;
  no_comma = (refl, (refl, tt));
}

entries-joined_example : entries (joined two_entries) ≡ map entry_of two_entries
entries-joined_example =
    entries-joined (record { before = []; first = b'a'; others = []; after = [] })
      (record { before = b' ' ∷ []; first = b'b'; others = b'b' ∷ []; after = [] } ∷ [])
      (first-IsEntry, (second-IsEntry, tt))

abbrev pub get_data : ℕ → Result (List ℕ)
get_data key = ok pool_data

abbrev pub get_owners : GetOwners
get_owners keys = ok (some 6 ∷ some 6 ∷ [])

pub loaded : load_pool get_data get_owners 99 ≡ ok known
loaded =
    load_pool-account_bytes get_data get_owners 99 zeros Accounts.pool Accounts.trailing (0 ∷ [])
      (some 6) (some 6) refl refl pool-IsPool trailing-IsTrailing refl

abbrev environment : BatchBuy.Environment
environment = record {
  rpc_url = some [];
  pool = some [];
  keypairs = some (joined two_entries);
  amount_lamports = some (b'5' ∷ b'0' ∷ []);
  interval_ms = none;
  slippage = none;
  jito_endpoints = some (joined two_entries);
}

abbrev settings : BatchBuy.Settings F64
settings = record { amount_in = 50; interval_ms = 700; slippage = binary64.literal 1 10 }

read_settings : BatchBuy.from_environment parsers environment ≡ ok (99, 1 ∷ 2 ∷ [], settings)
unfolding BatchBuy.from_environment parse_keypairs trimmed split trim_start trim_end is_whitespace
    parse_u64 digits_from
read_settings = refl

-- Every delivery fails.
abbrev answers : ℕ → BatchBuy.Answers
answers i = record {
  get_multiple_accounts = reads store;
  random = random;
  latest_blockhash = ok 7;
  send_and_confirm = λ tx. err rpc_failed;
  nows = 5 ∷ [];
  send_bundle = λ client texts. err rpc_failed;
}

abbrev clock : Clock answers
clock = record { at = λ i. 5; later = λ i. []; shown = λ i. refl; forward = λ i. le_refl 5 }

abbrev wire : BatchBuy.Wire
wire = record { encode = λ tx. ok []; base64 = λ bytes. bytes }

abbrev make : List ℕ → Option ℕ → ℕ
make url uuid = length url

batch_buy_lem_example :
    let run = batch_buy parsers make wire get_data get_owners 5 answers environment in
    let tries = attempts settings known answers 0 (map parsers.pubkey_of (1 ∷ 2 ∷ [])) in
    (delivered run.0 ≡ before_error tries)
    × (run.1 ≡ returned (first_error tries))
    × (asleep run.0 ≡ pauses 0 (looked_at tries) * settings.interval_ms)
    × (timeline run.0 ≡ schedule settings.interval_ms tries)
batch_buy_lem_example =
    batch_buy_lem parsers make wire get_data get_owners 5 answers environment 99 (1 ∷ 2 ∷ [])
      settings known clock read_settings loaded (le_refl 5)

batch_buy-Own_example :
    let run = batch_buy parsers make wire get_data get_owners 5 answers environment in
    Own (map parsers.pubkey_of (1 ∷ 2 ∷ [])) (delivered run.0)
batch_buy-Own_example =
    batch_buy-Own parsers make wire get_data get_owners 5 answers environment 99 (1 ∷ 2 ∷ [])
      settings known clock documented read_settings loaded (le_refl 5)

abbrev jito : JitoPool
jito = record { clients = 70 ∷ 71 ∷ []; last = 0 ∷ 3 ∷ []; interval = 0; rr = 0 }

jito-IsFree : IsFree 5 jito
jito-IsFree = record {
  no_interval = refl;
  some_client = omega arith;
  free = (omega arith, (omega arith, tt));
}

batch_from-rotation_example :
    let run = batch_from wire settings known answers (some jito) 0 (1 ∷ 2 ∷ 3 ∷ []) in
    let made = before_error (attempts settings known answers 0 (1 ∷ 2 ∷ 3 ∷ [])) in
    clients_of run.0 ≡ rotation jito.clients jito.rr (length made)
batch_from-rotation_example =
    batch_from-rotation wire settings known answers clock jito 0 (1 ∷ 2 ∷ 3 ∷ []) jito-IsFree
      (omega arith)

-- An admin with 10^9 lamports, and a vault that cannot be read.
abbrev admin : Runner.Settings
admin = record {
  admin = 1;
  token_mint = 12;
  target = 44;
  min_claimable_lamports = 500_000_000;
  reserve_lamports = 10_000_000;
}

abbrev runner_answers : Runner.Answers F64
runner_answers = record {
  vault_balance = λ key. failed;
  get_account = λ key. ok none;
  get_multiple_accounts = reads store;
  claiming = node;
  admin_balance = λ key. ok 1_000_000_000;
  sweeping = node;
}

claim_and_sweep-Sweeps_example :
    Sweeps admin 1_000_000_000 (claimed runner_answers admin) (claim_and_sweep runner_answers admin)
claim_and_sweep-Sweeps_example =
    claim_and_sweep-Sweeps runner_answers admin 1_000_000_000 (omega arith) refl

load_pool-account_bytes_example : load_pool get_data get_owners 99 ≡ ok known
load_pool-account_bytes_example =
    load_pool-account_bytes get_data get_owners 99 zeros Accounts.pool Accounts.trailing (0 ∷ [])
      (some 6) (some 6) refl refl pool-IsPool trailing-IsTrailing refl
