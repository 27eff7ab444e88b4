-- ===== src/HttpApi/Routes/Statuses.antt =====
-- The texts of the columns `status`, as accounting/schema.rs lists them: a filter that is none of them
-- matches no row.
use stratum_server_nng.Base.{String, Option, none, some, List, [], if◌then◌else◌, str_eq}
use stratum_server_nng.Accounting.Rounds.{Round, RoundTable, RoundStatus}
use stratum_server_nng.Accounting.Rounds
use stratum_server_nng.Accounting.Blocks.{FoundBlock, BlockTable, BlockStatus}
use stratum_server_nng.Accounting.Blocks
use stratum_server_nng.Accounting.Batches.{PayoutBatch, BatchTable, BatchStatus, list_batches}

abbrev pub block_status_text : BlockStatus → String
block_status_text BlockStatus.immature = "immature"
block_status_text BlockStatus.matured = "matured"
block_status_text BlockStatus.paid = "paid"
block_status_text BlockStatus.orphaned = "orphaned"

abbrev pub batch_status_text : BatchStatus → String
batch_status_text BatchStatus.pending = "pending"
batch_status_text BatchStatus.submitted = "submitted"
batch_status_text BatchStatus.confirmed = "confirmed"
batch_status_text BatchStatus.failed = "failed"

abbrev round_status_of : String → Option RoundStatus
round_status_of s =
    if str_eq s "open"
    then some RoundStatus.opened
    else (if str_eq s "found"
        then some RoundStatus.found
        else (if str_eq s "closed"
            then some RoundStatus.closed
            else (if str_eq s "paid"
                then some RoundStatus.paid
                else (if str_eq s "orphaned" then some RoundStatus.orphaned else none))))

abbrev block_status_of : String → Option BlockStatus
block_status_of s =
    if str_eq s "immature"
    then some BlockStatus.immature
    else (if str_eq s "matured"
        then some BlockStatus.matured
        else (if str_eq s "paid"
            then some BlockStatus.paid
            else (if str_eq s "orphaned" then some BlockStatus.orphaned else none)))

abbrev batch_status_of : String → Option BatchStatus
batch_status_of s =
    if str_eq s "pending"
    then some BatchStatus.pending
    else (if str_eq s "submitted"
        then some BatchStatus.submitted
        else (if str_eq s "confirmed"
            then some BatchStatus.confirmed
            else (if str_eq s "failed" then some BatchStatus.failed else none)))

-- The rows for a filter on the status.
abbrev filtered :
    {S A : Type 0} → (String → Option S) → (Option S → List A) → Option String → List A
filtered of_text rows none = rows none
filtered of_text rows (some s) = elim (of_text s) [ none ↦ [] | some status ↦ rows (some status) ]

unfoldable pub rounds_with : RoundTable → Option String → List Round
rounds_with tbl = filtered round_status_of (Rounds.list tbl)

unfoldable pub blocks_with : BlockTable → Option String → List FoundBlock
blocks_with tbl = filtered block_status_of (Blocks.list tbl)

unfoldable pub batches_with : BatchTable → Option String → List PayoutBatch
batches_with tbl = filtered batch_status_of (list_batches tbl)
