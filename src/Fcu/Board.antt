-- ===== src/Fcu/Board.antt =====
-- src/fcu.rs: what the cache of fork choice states promises the handlers, as a board that keeps the
-- first definite status of each state; with Exact matching and room, the cache is such a board.
use eleel.Common.{
  ℕ, suc, ◌+◌, ◌≤◌, ◌<◌, ◌≡◌, ◌≢◌, refl, sym, ap, ◌∙◌, inl, inr, ite, if_pos, if_neg, Bool, true,
  false, Bool-cases, Option, none, some, Option-cases, List, [], ◌∷◌, length, find,
  length-remove-le, length-take, subst, if◌then◌else◌, arith,
}
use eleel.Config.{exact}
use eleel.External.Lru.{Lru}
use eleel.External.Primitives.{Primitives}
use eleel.Types.{JsonForkchoiceStateV1, JsonPayloadStatusV1, forkchoice_state_discrete}
use eleel.Effects.Contents.{find-promote_any}
use eleel.Fcu.Handlers.{existing_status, store_fcu}
use eleel.Fcu.Keeps.{length-promote-le, held-store_fcu}
use eleel.Fcu.Status.{is_definite}
use eleel.Fcu.Stores.{held, in_front, unknown, kept, replaced, store_fcu-Way, store_fcu-Stored}
use eleel.Multiplexer.{Caches}

module _ ⦃p : Primitives⦄ where
  -- What the handlers do with the cache: the controller writes a status of the engine, anyone reads.
  pub data Use : Type 0 where
    write : JsonForkchoiceStateV1 → JsonPayloadStatusV1 → Use
    read : JsonForkchoiceStateV1 → Use

  -- Whether the status was written, and what was read.
  pub data Said : Type 0 where
    wrote : Bool → Said
    found : Option JsonPayloadStatusV1 → Said

  abbrev pub Board : Type 0
  Board = JsonForkchoiceStateV1 → Option JsonPayloadStatusV1

  abbrev pub settled : Option JsonPayloadStatusV1 → Bool
  settled none = false
  settled (some status) = is_definite status

  abbrev pub post : JsonForkchoiceStateV1 → JsonPayloadStatusV1 → Board → Board
  post fcu status board = λ k. ite (forkchoice_state_discrete fcu k) (some status) (board k)

  abbrev pub use_board : Use → Board → Said × Board
  use_board (write fcu status) board =
      if settled (board fcu) then (wrote false, board) else (wrote true, post fcu status board)
  use_board (read fcu) board = (found (board fcu), board)

  abbrev pub uses_board : List Use → Board → List Said × Board
  uses_board [] board = ([], board)
  uses_board (u ∷ uses) board =
      let (said, next) = use_board u board in
      let (rest, last) = uses_board uses next in (said ∷ rest, last)

  module _ ⦃lru : Lru⦄ where
    abbrev pub use_cache : Use → Caches → Said × Caches
    use_cache (write fcu status) s = let (cached, s') = store_fcu fcu status s in (wrote cached, s')
    use_cache (read fcu) s = let (status, s') = existing_status exact fcu s in (found status, s')

    abbrev pub uses_cache : List Use → Caches → List Said × Caches
    uses_cache [] s = ([], s)
    uses_cache (u ∷ uses) s =
        let (said, next) = use_cache u s in
        let (rest, last) = uses_cache uses next in (said ∷ rest, last)

  abbrev pub writes : List Use → ℕ
  writes [] = 0
  writes (write fcu status ∷ uses) = suc (writes uses)
  writes (read fcu ∷ uses) = writes uses

module _ ⦃p : Primitives⦄ ⦃lru : Lru⦄ where
  -- The cache holds what is on the board.
  abbrev pub Shows : Caches → Board → Type 0
  Shows s board = (k : JsonForkchoiceStateV1) → held k s ≡ board k

  abbrev size : Caches → ℕ
  size s = length (lru.iter s.fcu_cache)

  pub store_fcu-size :
      (fcu : JsonForkchoiceStateV1) (status : JsonPayloadStatusV1) (s : Caches)
      → (size (store_fcu fcu status s).1 ≤ suc (size s))
        × (lru.cap (store_fcu fcu status s).1.fcu_cache ≡ lru.cap s.fcu_cache)
  store_fcu-size fcu status s =
      let l = lru.iter s.fcu_cache in
      let fits = length-remove-le forkchoice_state_discrete fcu l in
      elim (store_fcu-Way fcu status s) [
        | unknown missing cached now ↦ (
          rw (now.entries)
              (omega (arith, fits, length-take (lru.cap s.fcu_cache) (in_front fcu status s))),
          now.size,
        )
        | kept existing there definite cached now ↦
            (rw (now.entries) (omega (arith, fits)), now.size)
        | replaced existing there open_ cached now ↦
            (rw (now.entries) (omega (arith, fits)), now.size)
      ]

  pub read-size :
      (fcu : JsonForkchoiceStateV1) (s : Caches)
      → (size (use_cache (read fcu) s).1 ≤ size s)
        × (lru.cap (use_cache (read fcu) s).1.fcu_cache ≡ lru.cap s.fcu_cache)
  unfolding existing_status
  read-size fcu s = (
    rw (lru.iter-get forkchoice_state_discrete fcu s.fcu_cache)
        (length-promote-le forkchoice_state_discrete fcu (lru.iter s.fcu_cache)),
    lru.cap-get forkchoice_state_discrete fcu s.fcu_cache,
  )

  read-Shows :
      (fcu : JsonForkchoiceStateV1) (s : Caches) (board : Board)
      → Shows s board
      → ((use_cache (read fcu) s).0 ≡ found (board fcu)) × Shows (use_cache (read fcu) s).1 board
  unfolding existing_status
  read-Shows fcu s board shows = (
    ap found (lru.get_value forkchoice_state_discrete fcu s.fcu_cache ∙ shows fcu),
    λ k.
        ap (find forkchoice_state_discrete k)
          (lru.iter-get forkchoice_state_discrete fcu s.fcu_cache)
        ∙ find-promote_any forkchoice_state_discrete fcu k (lru.iter s.fcu_cache)
        ∙ shows k,
  )

  -- A state other than the written one shows what it showed.
  others :
      (fcu : JsonForkchoiceStateV1) (status : JsonPayloadStatusV1) (s : Caches) (board : Board)
      → size s < lru.cap s.fcu_cache
      → Shows s board
      → (k : JsonForkchoiceStateV1) → fcu ≢ k
      → held k (store_fcu fcu status s).1 ≡ board k
  others fcu status s board room shows k apart = held-store_fcu fcu k status s apart room ∙ shows k

  write-Shows :
      (fcu : JsonForkchoiceStateV1) (status : JsonPayloadStatusV1) (s : Caches) (board : Board)
      → size s < lru.cap s.fcu_cache
      → Shows s board
      → ((use_cache (write fcu status) s).0 ≡ (use_board (write fcu status) board).0)
        × Shows (use_cache (write fcu status) s).1 (use_board (write fcu status) board).1
  write-Shows fcu status s board room shows =
      elim (store_fcu-Stored fcu status s (omega (arith, room))) [
        | inl (existing, there, definite, unwritten, after) ↦
            let on_board : board fcu ≡ some existing = sym (shows fcu) ∙ there in
            rw (on_board, definite)
              (
                ap wrote unwritten,
                λ k. elim (forkchoice_state_discrete fcu k) [
                  | yes same ↦
                      subst (λ i. held i (store_fcu fcu status s).1 ≡ board i) same
                        (after ∙ sym on_board)
                  | no apart ↦ others fcu status s board room shows k apart
                ],
              )
        | inr (open_, written, after) ↦
            let unsettled : settled (board fcu) ≡ false = elim (Option-cases (board fcu)) [
              | inl nothing ↦ rw nothing refl
              | inr (existing, there) ↦ rw there (open_ existing (shows fcu ∙ there))
            ] in
            rw unsettled (
              ap wrote written,
              λ k. elim (forkchoice_state_discrete fcu k) [
                | yes same ↦
                    subst (λ i. held i (store_fcu fcu status s).1 ≡ post fcu status board i) same
                      (after ∙ sym (if_pos (forkchoice_state_discrete fcu fcu) refl _ _))
                | no apart ↦
                    others fcu status s board room shows k apart
                    ∙ sym (if_neg (forkchoice_state_discrete fcu k) apart _ _)
              ],
            )
      ]

  -- With Exact matching and as much room in the cache as there are writes to come, any sequence of
  -- writes and reads of fork choice states tells what it would tell of a board that keeps the first
  -- definite status of each state and otherwise the last, and the cache shows what the board shows
  -- at the end.
  pub uses_cache-refines :
      (uses : List Use) (s : Caches) (board : Board)
      → Shows s board
      → size s + writes uses ≤ lru.cap s.fcu_cache
      → ((uses_cache uses s).0 ≡ (uses_board uses board).0)
        × Shows (uses_cache uses s).1 (uses_board uses board).1
  uses_cache-refines [] s board shows room = (refl, shows)
  uses_cache-refines (write fcu status ∷ uses) s board shows room =
      let (said, next) = write-Shows fcu status s board (omega (arith, room)) shows in
      let (small, same) = store_fcu-size fcu status s in
      let (rest, last) =
        uses_cache-refines uses (use_cache (write fcu status) s).1
          (use_board (write fcu status) board).1 next (omega (arith, small, same, room)) in
      (cc (said, rest), last)
  uses_cache-refines (read fcu ∷ uses) s board shows room =
      let (said, next) = read-Shows fcu s board shows in
      let (small, same) = read-size fcu s in
      let (rest, last) =
        uses_cache-refines uses (use_cache (read fcu) s).1 board next
          (omega (arith, small, same, room)) in
      (cc (said, rest), last)

-- What the board promises: a definite status stays.
module _ ⦃p : Primitives⦄ where
  uses_board-keeps :
      (uses : List Use) (board : Board) (k : JsonForkchoiceStateV1)
      → settled (board k) ≡ true
      → (uses_board uses board).1 k ≡ board k
  uses_board-keeps [] board k h = refl
  uses_board-keeps (read fcu ∷ uses) board k h = uses_board-keeps uses board k h
  uses_board-keeps (write fcu status ∷ uses) board k h = elim (Bool-cases (settled (board fcu))) [
    | inl done ↦ rw done (uses_board-keeps uses board k h)
    | inr open_ ↦
        let same : post fcu status board k ≡ board k =
          if_neg (forkchoice_state_discrete fcu k)
            (λ e. absurd (cc (ap (λ i. settled (board i)) e, open_, h))) _ _ in
        rw open_ (uses_board-keeps uses (post fcu status board) k (rw same h) ∙ same)
  ]

  -- While there is room, a definite status that the cache holds of a fork choice state is still
  -- held of it after any writes and reads.
  pub uses_cache-keeps :
      ⦃lru : Lru⦄ (uses : List Use) (s : Caches) (fcu : JsonForkchoiceStateV1)
      (status : JsonPayloadStatusV1)
      → length (lru.iter s.fcu_cache) + writes uses ≤ lru.cap s.fcu_cache
      → held fcu s ≡ some status
      → is_definite status ≡ true
      → held fcu (uses_cache uses s).1 ≡ some status
  uses_cache-keeps uses s fcu status room there definite =
      (uses_cache-refines uses s (λ k. held k s) (λ k. refl) room).1 fcu
      ∙ uses_board-keeps uses (λ k. held k s) fcu (rw there definite)
      ∙ there
