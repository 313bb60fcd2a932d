-- ===== src/Constants.antt =====
-- src/constants.rs: the program and account addresses, and the size of a current pool account.
-- An address is the number whose 32 little-endian digits are its bytes, as `pubkey!` decodes them.
use Prim.Native.Nat.{ℕ}
use mathlib.Core.List.{List, [], ◌∷◌}

-- pAMMBay6oceH9fJKBRHGP5D4bD4sWpmSwMn52FMfXEA
abbrev pub pump_swap_program_id : ℕ
pump_swap_program_id = 0x63a8e9180c09f8d4b471d556318d29f4654065bb1808259476c65e82fcde140c

-- 6EF8rrecthR5Dkzon8Nwu78hRvfCKubJ14M5uBEwF6P
abbrev pub pumpfun_program : ℕ
pumpfun_program = 0xb0186dfdb62b5d653bffd2f597cb8951aa5b17bf6815db44cf5a6693f6e05601

-- 4wTV1YmiEkRvAtNtsSGPtUrqRYQMe5SKy2uB4Jjaxnjf
abbrev pub pumpfun_global : ℕ
pumpfun_global = 0xa6723c79d92337fb8974eac1458dd5182fdce45763f6bcca80540fee695e863a

-- Ce6TQqeHC9p8KetsN6JsjHK7UTZk7nasjjnr7XxXp9F1
abbrev pub pumpfun_event_authority : ℕ
pumpfun_event_authority = 0x645cd359e0533bace9c557dd6af6379ab54a84b5c8233d884e1cfc01eb36f1ac

-- 8CoWk2ZYjsBZEy8yLqWEK9mtZ8tkAbAFrbmtyyuhEqGg
abbrev pub pump_creator_vault : ℕ
pump_creator_vault = 0x55c22f8f2f65cf466b41a8cbf899839cdb5afff400db8c3334a8e8de20ca076b

-- metaqbxxUerdq28cj1RbAWkYQm3ybzjb6a8bt518x1s
abbrev pub token_metadata_program : ℕ
token_metadata_program = 0x4629f803bcd1b649b5fda01a736cb858cdc3046b7f529d38457cd1e3b165700b

-- pfeeUxB6jkeY1Hxd7CsFCAjcbHA9rWtchMGdZ6VojVZ
abbrev pub fee_program : ℕ
fee_program = 0x707cc214a46a519c00401fa42cc9f14c27155607bcf7a88d568e5a05a9ff350c

-- GS4CU59F31iL7aR2Q8zVS8DRrcRnXX1yjQ66TqNVQnaR
abbrev pub event_authority : ℕ
event_authority = 0x5e7458941672ec3bb72fb6717ae41692131c897960b8b9c0619f832895704ae5

-- ADyA8hdefvWN2dbGGWFotbzWxrAvLW83WG6QCVXvJKqw
abbrev pub global_config : ℕ
global_config = 0xd670e1218e85692bf7eeea4b0a6e3b23d314ecd2d21cf119aa551ffe44a60b89

-- C2aFPdENg4A2HQsmrd5rTw5TaYBX5Ku887cWjbFKtZpw
abbrev pub global_volume_accumulator : ℕ
global_volume_accumulator = 0xb4f7aadd18298a17f9583ee90d82f9c3e1c27e43838fa62cc1ad587e12bbd7a3

-- So11111111111111111111111111111111111111112
abbrev pub wrapped_sol_mint : ℕ
wrapped_sol_mint = 0x100000000f0a098553beb1adc39c4da35c01846637f68fb8481abfe57889b06

abbrev pub protocol_fee_recipients : List ℕ
protocol_fee_recipients =
    0xe6b35caa6765f915516eceb956d9f3542a06b57c199c28e397bc5cddd0f8c24a
    ∷ 0x354575612dc876ad1846dba4d545bfd3e2a60515199c773bb461e9fc1dcc8c60
    ∷ 0x10d1d7471598b1978904cddd74bbbffa5e4ba064ff4ad364b22ca20e00738363
    ∷ 0xcb1761cdc5671296023823c6dd838a32428998a9b0ec36b4945a672e29748483
    ∷ 0xeba4277514b9a409d9b39b0ccbaa0057f91e08d3de4af3a637a99f840c1a188d
    ∷ 0x614148a9d32ed1ea12c036ebac0ddc6bc962f7af5d474d4c1b29d860b08faad7
    ∷ 0x46788ff31478d9de00ec9a952495d245792cfd0638807fe45cfa98eb7cc804e0
    ∷ 0xc9c3a87b8746b2c5ac1572c39b97f0b8faf9935e6d3bcdc328faa88b818383ff ∷ []

abbrev pub reserved_fee_recipients : List ℕ
reserved_fee_recipients =
    0x907d1270760c8df324a2eaa75314e60309ee178e110d874159f8eb11f1493e8
    ∷ 0x5f0b7ddcf3dbaaf97638d193177233436b444efa7e121928914f095662538435
    ∷ 0x2abd0c097a18bbd9359cb590c6a5b45937456b4d7b2303706742f9208201756e
    ∷ 0xa047c3f86fa48f47c127b45d00df81308bdce5135b9259ab996713bb9e7a9833
    ∷ 0x5b661402f0e1aaa84af2ed438c25444c779c4ecbdd7a2246d0a2373e3f54e974
    ∷ 0xb3f9db206c79b599c45346f2f1d18a9ecab4c39ebb08b4598f43b76dcd384cda
    ∷ 0x5ce3f93ede21d0440e034e0785c636a5cf45187c84715c1172b3393fea9edd2d
    ∷ 0x6b54f4630ff5cfc5b0a35d8afa39d468da2578576a44ec4be8fee28ef080b74c ∷ []

abbrev pub buyback_fee_recipients : List ℕ
buyback_fee_recipients =
    0x22219f41db074c34fb15c4511f97510db70bbe049de831d9fa653dc010659e43
    ∷ 0xe052acfdd47da18b7c17a576566e95e15ae2038498c58674c1317a916552302
    ∷ 0x67631f0d86bc70c055a7f563011a71ef1fc60893907fa50a6488bb6820e2a7e6
    ∷ 0x781c55906e65327031cb1a48d2568db1664540686df1f0eab16ccc5bdaec7c20
    ∷ 0x732de957b18a360c793219ba89cada2cc0556f75d8856aa773dc5849f8419644
    ∷ 0xed2c7971d58baffe5e45fb4cb7c64f742711e3e0e24bea461e9431c9b5964bc5
    ∷ 0x4e8eeb99cdd10ed2b3fde88daddbd80a5721b05f6b5e9c90d0334af9781ffc44
    ∷ 0x69c8f2b6c7f8be7aa8b8cf90db57766c32b1f6379bb95d658a67ebeb7e157087 ∷ []

abbrev pub pool_account_new_size : ℕ
pool_account_new_size = 301
