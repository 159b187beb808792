-- ===== src/Evm/Options.antt =====
-- evm/options.go: each option is a function on the service.
use zkcertificates_queue_pro.Base.{
  ℕ, String, Bool, true, Option, none, some, List, [], ◌∷◌, insert, if◌then◌else◌,
}
use zkcertificates_queue_pro.Base.Int.{ℤ, pos, ltb_ℤ}
use zkcertificates_queue_pro.Evm.Types.{Address, Hash, Service}

unfoldable pub with_polling_interval : ℤ → Service → Service
with_polling_interval interval s =
    if ltb_ℤ (pos 0) interval then record s { polling_interval = interval } else s

unfoldable pub with_default_start_block : Option ℤ → Service → Service
with_default_start_block none s = s
with_default_start_block (some block) s = record s { default_start_block = block }

unfoldable pub with_block_confirmations : ℕ → Service → Service
with_block_confirmations confirmations s = record s { confirmations = confirmations }

unfoldable pub with_event_filter : List Hash → Service → Service
with_event_filter [] s = s
with_event_filter (signature ∷ rest) s =
    with_event_filter rest (record s { event_filters = insert signature true s.event_filters })

unfoldable pub with_max_block_range : Option ℤ → Service → Service
with_max_block_range none s = s
with_max_block_range (some blocks) s =
    if ltb_ℤ (pos 1) blocks then record s { max_block_range = blocks } else s

-- `common.IsHexAddress` and `common.HexToAddress` are go-ethereum's.
module _ (is_hex_address : String → Bool) (hex_to_address : String → Address) where
  initial_block : Option ℤ → ℤ → ℤ
  initial_block none default = default
  initial_block (some block) default = block

  -- The map is a list of its entries, in the order that the range clause visits them.
  unfoldable pub with_initial_contracts : List (String × Option ℤ) → Service → Service
  unfolding initial_block
  with_initial_contracts [] s = s
  with_initial_contracts ((addr, start_block) ∷ rest) s = with_initial_contracts rest (
      if is_hex_address addr
      then record s {
        contracts =
            insert (hex_to_address addr)
              (record {
                address = hex_to_address addr;
                start_block = initial_block start_block s.default_start_block;
                current_block = initial_block start_block s.default_start_block;
              })
              s.contracts;
      }
      else s)
