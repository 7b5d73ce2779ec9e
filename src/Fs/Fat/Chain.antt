-- ===== src/Fs/Fat/Chain.antt =====
-- The chain of clusters that `read_map` of fs/inode.c stores in an inode.
use mathlib.Core.List.{append_assoc}
use myos_ia.Prelude.{
  ℕ, zero, suc, ◌+◌, ◌*◌, ◌<◌, ◌≤◌, ◌≡◌, sym, ap, ◌∙◌, true, false, List, [], ◌∷◌, ◌++◌, arith,
  Bool-cases, inl, inr, length, length-append, get_or, get_or-append, get_or-set_ne, set,
  set-append,
}
use myos_ia.Fs.{Disk, SuperBlock, Inode}
use myos_ia.Fs.Fat.{eeof, fat_entry_val, do_cdiv, follow, read_map}

-- Clusters that the table links to each other, up to one that is marked as the last.
abbrev pub Chain : Disk → SuperBlock → List ℕ → Type 0
Chain disk bd [] = Unit
Chain disk bd (c ∷ []) = eeof bd (fat_entry_val disk bd c) ≡ true
Chain disk bd (c ∷ d ∷ cs) =
    (fat_entry_val disk bd c ≡ d) × (eeof bd d ≡ false) × Chain disk bd (d ∷ cs)

follow-Chain :
    (disk : Disk) (bd : SuperBlock) (count c : ℕ) (cs done old rest : List ℕ)
    → Chain disk bd (c ∷ cs)
    → length cs ≤ count
    → length old ≡ suc (length cs)
    → follow disk bd count (length done) c (done ++ (old ++ rest)) ≡ done ++ ((c ∷ cs) ++ rest)
unfolding follow
follow-Chain disk bd count c cs done [] rest h fits len = absurd (omega arith)
follow-Chain disk bd zero c [] done (o ∷ []) rest h fits len = set-append done o rest c
follow-Chain disk bd zero c [] done (o ∷ p ∷ old) rest h fits len = absurd (omega arith)
follow-Chain disk bd zero c (d ∷ cs) done (o ∷ old) rest h fits len = absurd (omega arith)
follow-Chain disk bd (suc count) c [] done (o ∷ []) rest h fits len =
    rw h (set-append done o rest c)
follow-Chain disk bd (suc count) c [] done (o ∷ p ∷ old) rest h fits len = absurd (omega arith)
follow-Chain disk bd (suc count) c (d ∷ cs) done (o ∷ old) rest (next, more, h) fits len =
    let stored : set (done ++ (o ∷ (old ++ rest))) (length done) c ≡ done ++ (c ∷ (old ++ rest)) =
      set-append done o (old ++ rest) c in
    let shift : done ++ (c ∷ (old ++ rest)) ≡ (done ++ (c ∷ [])) ++ (old ++ rest) =
      sym (append_assoc done (c ∷ []) (old ++ rest)) in
    let place : length done + 1 ≡ length (done ++ (c ∷ [])) =
      omega (arith, length-append done (c ∷ [])) in
    rw (next, more, stored, shift, place)
      (follow-Chain disk bd count d cs (done ++ (c ∷ [])) old rest h (omega arith) (omega arith)
        ∙ append_assoc done (c ∷ []) ((d ∷ cs) ++ rest))

-- Where the table links the first cluster of a file to a chain that is no longer than one cluster
-- more than the size of the file asks for, `read_map` replaces as many words from `block[0]` on as
-- the chain has clusters by the chain, also past the ten entries of `block`.
pub read_map-Chain :
    (disk : Disk) (ip : Inode) (c : ℕ) (cs old rest : List ℕ)
    → ip.block ≡ (c ∷ old) ++ rest
    → length old ≡ length cs
    → length cs ≤ do_cdiv ip.size (ip.i_sb.cluster_size * ip.i_sb.sector_size)
    → Chain disk ip.i_sb (c ∷ cs)
    → read_map disk ip ≡ record ip { block = (c ∷ cs) ++ rest }
unfolding read_map
read_map-Chain disk ip c cs old rest begins len fits h = rw begins (
    ap (λ b. record ip { block = b })
      (follow-Chain disk ip.i_sb (do_cdiv ip.size (ip.i_sb.cluster_size * ip.i_sb.sector_size)) c cs
        [] (c ∷ old) rest h fits (omega arith)))

follow-beyond :
    (disk : Disk) (bd : SuperBlock) (count i index j d : ℕ) (block : List ℕ)
    → i + count < j
    → get_or (follow disk bd count i index block) j d ≡ get_or block j d
unfolding follow
follow-beyond disk bd zero i index j d block h = get_or-set_ne block i j index d (omega arith)
follow-beyond disk bd (suc count) i index j d block h =
    let index' : ℕ = fat_entry_val disk bd index in
    elim (Bool-cases (eeof bd index')) [
      | inl last ↦ rw last (get_or-set_ne block i j index d (omega arith))
      | inr more ↦ rw more (
          follow-beyond disk bd count (i + 1) index' j d (set block i index) (omega arith)
          ∙ get_or-set_ne block i j index d (omega arith))
    ]

-- Whatever the table links, even in a circle, `read_map` stores at most one cluster more than the
-- size of the file asks for, and leaves what is behind.
pub read_map-beyond :
    (disk : Disk) (ip : Inode) (j d : ℕ)
    → do_cdiv ip.size (ip.i_sb.cluster_size * ip.i_sb.sector_size) < j
    → get_or (read_map disk ip).block j d ≡ get_or ip.block j d
unfolding read_map
read_map-beyond disk ip j d h =
    follow-beyond disk ip.i_sb (do_cdiv ip.size (ip.i_sb.cluster_size * ip.i_sb.sector_size)) 0
      (get_or ip.block 0 0) j d ip.block (omega arith)

-- Where `block` has ten words and the size asks for ten clusters or more, a file whose chain has
-- eleven clusters overwrites the word behind `block`, the pointer `i_op`, with the number of its
-- last cluster.
pub read_map-overflow :
    (disk : Disk) (ip : Inode) (c last i_op : ℕ) (cs old rest : List ℕ)
    → ip.block ≡ (c ∷ old) ++ (i_op ∷ rest)
    → length (c ∷ old) ≡ 10
    → length cs ≡ length old
    → 10 ≤ do_cdiv ip.size (ip.i_sb.cluster_size * ip.i_sb.sector_size)
    → Chain disk ip.i_sb (c ∷ (cs ++ (last ∷ [])))
    → get_or (read_map disk ip).block 10 i_op ≡ last
read_map-overflow disk ip c last i_op cs old rest begins ten len fits h =
    let whole : read_map disk ip ≡ record ip { block = (c ∷ (cs ++ (last ∷ []))) ++ rest } =
      read_map-Chain disk ip c (cs ++ (last ∷ [])) (old ++ (i_op ∷ [])) rest
        (begins ∙ ap (λ t. c ∷ t) (sym (append_assoc old (i_op ∷ []) rest)))
        (omega (arith, length-append old (i_op ∷ []), length-append cs (last ∷ [])))
        (omega (arith, length-append cs (last ∷ []))) h in
    let index : 10 ≡ length (c ∷ cs) = omega arith in
    ap (λ ip'. get_or ip'.block 10 i_op) whole
    ∙ ap (λ t. get_or (c ∷ t) 10 i_op) (append_assoc cs (last ∷ []) rest)
    ∙ ap (λ n. get_or ((c ∷ cs) ++ (last ∷ rest)) n i_op) index
    ∙ get_or-append (c ∷ cs) last rest i_op
