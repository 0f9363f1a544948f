-- ===== src/Sync.antt =====
-- lib/sync.go, and the challenge of lib/challenge.go. The answers of a peer are arguments: its height, or
-- none where the request failed, and for each request, counted from zero, the blocks that it returns,
-- where a null in the answer is a nil pointer.
pub mod Rounds
use shadowd.Common.{
  ℕ, zero, suc, ◌+◌, ◌-◌, ◌*◌, ◌/◌, ◌%◌, Bool, true, false, Option, none, some, List, [], ◌∷◌, ◌++◌,
  is_empty, length, leb, ltb, ◌==◌, nat_eq, if◌then◌else◌,
}
use shadowd.Common.Text.{Text, bytes}
use shadowd.Common.Word.{add64, sub64}
use shadowd.Common.Result.{Result, ok, err}
use shadowd.Common.State.{Action, pure, raise, gets, raise_if, ◌>>=◌, ◌>>◌}
use shadowd.Chain.{Block}
use shadowd.Chain.Ledger.{ChainEnv, Ledger, ChainError, get_height, latest_block, block_range}
use shadowd.Chain.Apply.{add_block}

-- `BlockBatchSize`
abbrev pub block_batch_size : ℕ
block_batch_size = 100

-- `SyncRequest`, by its type
pub data SyncRequest : Type 0 where
  height_request : SyncRequest
  blocks_request : ℕ → ℕ → SyncRequest
  other_request : Text → SyncRequest

-- `SyncResponse`, with the error's text as a constructor
pub data SyncResponse : Type 0 where
  height_response : ℕ → SyncResponse
  blocks_response : List Block → SyncResponse
  invalid_range unknown_request : SyncResponse

abbrev serve_blocks : Result ChainError (List Block) → Result ChainError SyncResponse
serve_blocks (ok bs) = ok (blocks_response bs)
serve_blocks (err e) = err e

-- the response that `HandleStream` sends
unfoldable pub handle_stream :
    {c : ChainEnv} → SyncRequest → Ledger c → Result ChainError SyncResponse
handle_stream height_request l = ok (height_response (sub64 (get_height l) 1))
handle_stream (blocks_request start end) l =
    if ltb end start then ok invalid_range else serve_blocks (block_range start end l.blocks)
handle_stream (other_request kind) l = ok unknown_request

-- `too_many_rounds` is no error of the code: it says that the fuel ran out.
pub data SyncError : Type 0 where
  no_height request_failed no_blocks nil_block too_many_rounds no_peers : SyncError
  add_failed : ChainError → SyncError

abbrev pub Op : ChainEnv → Type 0 → Type 0
Op c A = Action (Ledger c) SyncError A

-- the answers of a peer to the requests for blocks, by the number of the request and its range
abbrev pub Answers : Type 0
Answers = ℕ → ℕ → ℕ → Option (List (Option Block))

-- the end of the range that a round asks for
abbrev pub batch_end : ℕ → ℕ → ℕ
batch_end start peer =
    let whole : ℕ = sub64 (add64 start block_batch_size) 1 in if ltb peer whole then peer else whole

-- the number of requests for the blocks from one height to another
abbrev pub rounds : ℕ → ℕ → ℕ
rounds start peer = (peer + 1 - start) / block_batch_size + 1

module _ {c : ChainEnv} where
  abbrev pub add_new : Block → Op c (Unit {0})
  add_new b l =
      let (r, l') = add_block false b l in
      (elim r [ ok _ ↦ ok tt | err e ↦ err (add_failed e) ], l')

  -- the loop over the blocks of one answer
  unfoldable pub add_blocks : List (Option Block) → Op c (Unit {0})
  add_blocks [] = pure tt
  add_blocks (none ∷ bs) = raise nil_block
  add_blocks (some b ∷ bs) = do
    height ← gets get_height
    if leb b.index (sub64 height 1) then pure tt else add_new b
    add_blocks bs

  -- one request, `RequestBlocks`, and its answer
  abbrev pub apply_answer : Option (List (Option Block)) → Op c (Unit {0})
  apply_answer none = raise request_failed
  apply_answer (some bs) = do raise_if (is_empty bs) no_blocks; add_blocks bs

  -- the loop over the batches, on fuel: the number of requests that are allowed
  unfoldable pub sync_rounds : Answers → ℕ → ℕ → ℕ → ℕ → Op c (Unit {0})
  sync_rounds answers zero n start peer = if leb start peer then raise too_many_rounds else pure tt
  sync_rounds answers (suc fuel) n start peer =
      let rest : Op c (Unit {0}) =
        sync_rounds answers fuel (n + 1) (add64 start block_batch_size) peer in
      if leb start peer
      then (do apply_answer (answers n start (batch_end start peer)); rest)
      else pure tt

  unfoldable pub sync_to : Answers → ℕ → Op c (Unit {0})
  sync_to answers peer = do
    height ← gets get_height
    let mine = sub64 height 1
    if leb peer mine
        then pure tt
        else sync_rounds answers (rounds (add64 mine 1) peer) 0 (add64 mine 1) peer

  -- `SyncFromPeer`, with the height that `GetPeerHeight` returns
  unfoldable pub sync_from_peer : Option ℕ → Answers → Op c (Unit {0})
  sync_from_peer none answers = raise no_height
  sync_from_peer (some peer) answers = sync_to answers peer

-- a peer: its identifier, the height it reports when it is asked to find the best, and again when it is
-- synchronised from, and its answers
pub record Peer : Type 0 where
  pub id : Text
  pub first_height : Option ℕ
  pub height : Option ℕ
  pub answers : Answers

abbrev pub higher : Peer → Option ℕ → Option Peer × ℕ → Option Peer × ℕ
higher p none best = best
higher p (some h) (q, best) = if ltb best h then (some p, h) else (q, best)

-- the loop of `SyncFromBestPeer`; the message for a peer without a height slices its identifier, which is
-- long enough for a libp2p identifier
unfoldable pub best_peer : List Peer → Option Peer × ℕ → Option Peer × ℕ
best_peer [] best = best
best_peer (p ∷ ps) best = best_peer ps (higher p p.first_height best)

-- `SyncFromBestPeer`
unfoldable pub sync_from_best_peer : {c : ChainEnv} → List Peer → Op c (Unit {0})
sync_from_best_peer ps = elim (best_peer ps (none, 0)).0 [
  | none ↦ raise no_peers
  | some p ↦ sync_from_peer p.height p.answers
]

-- eight bytes of a number, the lowest first
le_bytes : ℕ → ℕ → Text
le_bytes zero n = []
le_bytes (suc k) n = (n % 256) ∷ le_bytes k (n / 256)

-- the int64 time rounded towards zero to tens, on its bit pattern
unfoldable pub floor_timestamp : ℕ → ℕ
floor_timestamp t = if ltb t 9223372036854775808 then t / 10 * 10 else sub64 0 (sub64 0 t / 10 * 10)

-- `GenerateChallenge`, over SHAKE-256 of the given output length
unfoldable pub generate_challenge : (ℕ → Text → Text) → Text → ℕ → ℕ → Text
unfolding le_bytes
generate_challenge shake prev height time =
    shake 32 (prev ++ (le_bytes 8 height ++ le_bytes 8 (floor_timestamp time)))

-- `GetCurrentChallenge`
unfoldable pub get_current_challenge : {c : ChainEnv} → (ℕ → Text → Text) → Ledger c → Text
get_current_challenge {c = c} shake l = elim (latest_block l) [
  | none ↦ generate_challenge shake [] 0 c.env.now
  | some b ↦ generate_challenge shake b.hash (add64 b.index 1) c.env.now
]
