-- ===== src/Rsync/Delta/Region.antt =====
-- What update_delta_block_list of rsync/src.c adds to the list of delta blocks.
use somerubbish.Prelude.{
  ℕ, suc, ◌+◌, ◌-◌, ◌%◌, ◌^◌, ◌≤◌, ◌<◌, ◌≡◌, refl, List, [], ◌∷◌, ◌++◌, Option, none, some, arith,
  ltb, if◌then◌else◌, length, length-append, max, lt→ltb, dec_lt, false, append-nil, append_assoc,
  ap, ◌∙◌,
}
use somerubbish.Rsync.Chunk.{ChunkBlock}
use somerubbish.Rsync.Delta.{
  dup_block, n_dup_block, DeltaBlock, DeltaList, dblke_add_to_tail, add_region_block, region_loop,
  add_dup_block, update_delta_block_list,
}

abbrev pub region_block : (off len : ℕ) → DeltaBlock
region_block off len = record {
  offset = off;
  len = len;
  dup_flag = n_dup_block;
  dst_block_no = none;
}

unfoldable pub dup_blocks : (dup_off n : ℕ) → Option ChunkBlock → List DeltaBlock
dup_blocks dup_off n none = []
dup_blocks dup_off n (some c) =
    record { offset = dup_off; len = n; dup_flag = dup_block; dst_block_no = some (c.block_no) }
    ∷ []

-- The number of blocks that are no duplicates.
unfoldable pub count_n_dup : List DeltaBlock → ℕ
count_n_dup [] = 0
count_n_dup (b ∷ bs) = elim (b.dup_flag) [
  | dup_block ↦ count_n_dup bs
  | n_dup_block ↦ suc (count_n_dup bs)
]

-- A region of less than 4 GB takes one round: one block, which begins where the region does and is
-- as long as the region or as a block of the file, whichever is more.
pub region_loop_lem :
    (fuel : ℕ) (l : DeltaList) (off dup_off block_sz : ℕ)
    → off < dup_off
    → dup_off - off < 2 ^ 32
    → block_sz < 2 ^ 32
    → dup_off + block_sz < 2 ^ 64
    → region_loop (suc (suc fuel)) l off dup_off block_sz
      ≡ some (record {
        blocks = l.blocks ++ (region_block off (max (dup_off - off) block_sz) ∷ []);
        delta_block_nr = (l.delta_block_nr + 1) % 2 ^ 64;
      })
unfolding region_loop add_region_block dblke_add_to_tail
region_loop_lem fuel l off dup_off block_sz lt small sz room = ground arith

region_loop_of_le :
    (fuel : ℕ) (l : DeltaList) (off dup_off block_sz : ℕ)
    → dup_off ≤ off
    → region_loop (suc fuel) l off dup_off block_sz ≡ some l
unfolding region_loop
region_loop_of_le fuel l off dup_off block_sz h = ground arith

add_dup_block_lem :
    (l : DeltaList) (dup_off n : ℕ) (cblk : Option ChunkBlock)
    → add_dup_block l dup_off n cblk
      ≡ record { blocks = l.blocks ++ dup_blocks dup_off n cblk; delta_block_nr = l.delta_block_nr }
unfolding add_dup_block dup_blocks dblke_add_to_tail
add_dup_block_lem l dup_off n none = rw (append-nil (l.blocks))
add_dup_block_lem l dup_off n (some c) = refl

-- The blocks for a region and the duplicate behind it.
unfoldable pub added_blocks :
    (off dup_off n : ℕ) → Option ChunkBlock → (block_sz : ℕ) → List DeltaBlock
added_blocks off dup_off n cblk block_sz =
    (if ltb off dup_off then region_block off (max (dup_off - off) block_sz) ∷ [] else [])
    ++ dup_blocks dup_off n cblk

abbrev next_nr : (off dup_off nr : ℕ) → ℕ
next_nr off dup_off nr = if ltb off dup_off then (nr + 1) % 2 ^ 64 else nr

-- What is left of the loop is to add the duplicate.
update_of_loop :
    (l l' : DeltaList) (off dup_off n : ℕ) (cblk : Option ChunkBlock) (block_sz : ℕ)
    → region_loop (dup_off - off + 1) l off dup_off block_sz ≡ some l'
    → update_delta_block_list l off dup_off n cblk block_sz
      ≡ some (record {
        blocks = l'.blocks ++ dup_blocks dup_off n cblk;
        delta_block_nr = l'.delta_block_nr;
      })
unfolding update_delta_block_list
update_of_loop l l' off dup_off n cblk block_sz e =
    rw (e, update_delta_block_list) (ap some (add_dup_block_lem l' dup_off n cblk))

-- A region of less than 4 GB adds one block and counts it, an empty region adds none, and a
-- duplicate adds one block that is not counted. The block of a region that is shorter than a block
-- of the file is as long as a block of the file.
pub update_delta_block_list_lem :
    (l : DeltaList) (off dup_off n : ℕ) (cblk : Option ChunkBlock) (block_sz : ℕ)
    → dup_off - off < 2 ^ 32
    → block_sz < 2 ^ 32
    → dup_off + block_sz < 2 ^ 64
    → update_delta_block_list l off dup_off n cblk block_sz
      ≡ some (record {
        blocks = l.blocks ++ added_blocks off dup_off n cblk block_sz;
        delta_block_nr =
            if ltb off dup_off then (l.delta_block_nr + 1) % 2 ^ 64 else l.delta_block_nr;
      })
unfolding added_blocks
update_delta_block_list_lem l off dup_off n cblk block_sz small sz room =
    elim (dec_lt off dup_off) [
      | yes lt ↦ rw (lt→ltb off dup_off lt) (
          update_of_loop l _ off dup_off n cblk block_sz (
            fuel_is (suc (suc (dup_off - off - 1))) (omega arith)
            ∙ region_loop_lem (dup_off - off - 1) l off dup_off block_sz lt small sz room)
          ∙ ap
              (λ bs.
                some (record { blocks = bs; delta_block_nr = (l.delta_block_nr + 1) % 2 ^ 64 }))
              (append_assoc l.blocks (region_block off (max (dup_off - off) block_sz) ∷ [])
                (dup_blocks dup_off n cblk)))
      | no ge ↦
          let stop : ltb off dup_off ≡ false = ground arith in
          rw stop (
            update_of_loop l l off dup_off n cblk block_sz (
              fuel_is (suc 0) (omega arith)
              ∙ region_loop_of_le 0 l off dup_off block_sz (omega arith)))
    ]
  where
    fuel_is :
        (f : ℕ)
        → dup_off - off + 1 ≡ f
        → region_loop (dup_off - off + 1) l off dup_off block_sz
          ≡ region_loop f l off dup_off block_sz
    fuel_is f e = ap (λ k. region_loop k l off dup_off block_sz) e

count_n_dup-append :
    (xs ys : List DeltaBlock) → count_n_dup (xs ++ ys) ≡ count_n_dup xs + count_n_dup ys
unfolding count_n_dup
count_n_dup-append [] ys = omega arith
count_n_dup-append (x ∷ xs) ys = ground (arith, count_n_dup-append xs ys)

count_n_dup-le-length : (xs : List DeltaBlock) → count_n_dup xs ≤ length xs
unfolding count_n_dup
count_n_dup-le-length [] = omega arith
count_n_dup-le-length (x ∷ xs) = ground (arith, count_n_dup-le-length xs)

-- Where the count is that of the blocks that are no duplicates, an update keeps it so, and the
-- count is below the number of the blocks as soon as the update has added a duplicate.
pub update_delta_block_list-count :
    (l : DeltaList) (off dup_off n : ℕ) (c : ChunkBlock) (block_sz : ℕ)
    → dup_off - off < 2 ^ 32
    → block_sz < 2 ^ 32
    → dup_off + block_sz < 2 ^ 64
    → l.delta_block_nr + 1 < 2 ^ 64
    → l.delta_block_nr ≡ count_n_dup l.blocks
    → (l' : DeltaList) × (update_delta_block_list l off dup_off n (some c) block_sz ≡ some l')
      × (l'.delta_block_nr ≡ count_n_dup l'.blocks)
      × (l'.delta_block_nr < length l'.blocks)
unfolding count_n_dup added_blocks dup_blocks
update_delta_block_list-count l off dup_off n c block_sz small sz room few count = (
  _,
  update_delta_block_list_lem l off dup_off n (some c) block_sz small sz room,
  ground (arith, count_n_dup-append l.blocks added, count_n_dup-added),
  ground (arith, length-append l.blocks added, length-added, count_n_dup-le-length l.blocks),
)
  where
    added : List DeltaBlock
    added = added_blocks off dup_off n (some c) block_sz

    count_n_dup-added : count_n_dup added ≡ (if ltb off dup_off then 1 else 0)
    count_n_dup-added = ground arith

    length-added : length added ≡ (if ltb off dup_off then 2 else 1)
    length-added = ground arith
