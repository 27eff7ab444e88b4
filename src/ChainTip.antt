-- ===== src/ChainTip.antt =====
-- accounting/chain_tip.rs: the shared height of the chain's tip, an atomic i32 that is loaded and
-- stored with relaxed ordering by one task, so that each update is one step on its value.
use stratum_server_nng.Base.{◌&&◌, if◌then◌else◌}
use stratum_server_nng.Int.{ℤ, pos, ◌-ℤ◌, ltb_ℤ, leb_ℤ}

-- `ChainTip::update_block_connected`.
unfoldable pub update_block_connected : ℤ → ℤ → ℤ
update_block_connected prev height = if ltb_ℤ prev height then height else prev

-- `ChainTip::update_block_disconnected`.
unfoldable update_block_disconnected : ℤ → ℤ → ℤ
update_block_disconnected prev height =
    if (leb_ℤ height prev && leb_ℤ prev height) && ltb_ℤ (pos 0) prev then prev -ℤ pos 1 else prev
