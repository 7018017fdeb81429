-- ===== src/Tests/Buffers.antt =====
-- A buffer in a heap that is a list of blocks, where a pointer is an index.
use sp1_tee.Prelude.{
  ℕ, zero, suc, ◌≡◌, ◌≢◌, refl, ap, List, [], ◌∷◌, ◌++◌, Option, none, some, arith, length,
  replicate, length-replicate, ltb, Bool-cases, inl, inr, if◌then◌else◌,
}
use sp1_tee.Enclave.ByteBuf.{Memory, MemoryLaws, from, drop, drop-from}

abbrev Blocks : Type 0
Blocks = List (Option (List ℕ))

abbrev at_index : Blocks → ℕ → Option (List ℕ)
at_index [] n = none
at_index (b ∷ bs) zero = b
at_index (b ∷ bs) (suc n) = at_index bs n

abbrev put : ℕ → Option (List ℕ) → Blocks → Blocks
put n b [] = []
put zero b (x ∷ xs) = b ∷ xs
put (suc n) b (x ∷ xs) = x ∷ put n b xs

at_index-length : (bs : Blocks) → at_index bs (length bs) ≡ none
at_index-length [] = refl
at_index-length (b ∷ bs) = at_index-length bs

at_index-last : (bs : Blocks) (b : Option (List ℕ)) → at_index (bs ++ (b ∷ [])) (length bs) ≡ b
at_index-last [] b = refl
at_index-last (x ∷ bs) b = at_index-last bs b

at_index-before :
    (bs : Blocks) (b : Option (List ℕ)) (p : ℕ)
    → p ≢ length bs
    → at_index (bs ++ (b ∷ [])) p ≡ at_index bs p
at_index-before [] b zero h = absurd (h refl)
at_index-before [] b (suc p) h = refl
at_index-before (x ∷ bs) b zero h = refl
at_index-before (x ∷ bs) b (suc p) h = at_index-before bs b p (λ e. h (ap suc e))

at_index-put :
    (bs : Blocks) (b : Option (List ℕ)) (n : ℕ) (old : List ℕ)
    → at_index bs n ≡ some old
    → at_index (put n b bs) n ≡ b
at_index-put [] b n old h = absurd (cc)
at_index-put (x ∷ bs) b zero old h = refl
at_index-put (x ∷ bs) b (suc n) old h = at_index-put bs b n old h

at_index-put_other :
    (bs : Blocks) (b : Option (List ℕ)) (n p : ℕ) → p ≢ n → at_index (put n b bs) p ≡ at_index bs p
at_index-put_other [] b n p h = refl
at_index-put_other (x ∷ bs) b zero zero h = absurd (h refl)
at_index-put_other (x ∷ bs) b zero (suc p) h = refl
at_index-put_other (x ∷ bs) b (suc n) zero h = refl
at_index-put_other (x ∷ bs) b (suc n) (suc p) h = at_index-put_other bs b n p (λ e. h (ap suc e))

-- The block behind a pointer, which is one more than its index.
abbrev block_at : Blocks → ℕ → Option (List ℕ)
block_at bs zero = none
block_at bs (suc n) = at_index bs n

abbrev put_at : ℕ → Option (List ℕ) → Blocks → Blocks
put_at zero b bs = bs
put_at (suc n) b bs = put n b bs

block_at-new :
    (bs : Blocks) (b : Option (List ℕ)) (p : ℕ)
    → p ≢ suc (length bs)
    → block_at (bs ++ (b ∷ [])) p ≡ block_at bs p
block_at-new bs b zero h = refl
block_at-new bs b (suc p) h = at_index-before bs b p (λ e. h (ap suc e))

block_at-put :
    (bs : Blocks) (b : Option (List ℕ)) (p : ℕ) (old : List ℕ)
    → block_at bs p ≡ some old
    → block_at (put_at p b bs) p ≡ b
block_at-put bs b zero old h = absurd (cc)
block_at-put bs b (suc n) old h = at_index-put bs b n old h

block_at-put_other :
    (bs : Blocks) (b : Option (List ℕ)) (n p : ℕ)
    → p ≢ n
    → block_at (put_at n b bs) p ≡ block_at bs p
block_at-put_other bs b zero p h = refl
block_at-put_other bs b (suc n) zero h = refl
block_at-put_other bs b (suc n) (suc p) h = at_index-put_other bs b n p (λ e. h (ap suc e))

-- There is room for three blocks.
abbrev memory : Memory
memory = record {
  Heap = Blocks;
  alloc = λ n s.
      if ltb (length s) 3 then (suc (length s), s ++ (some (replicate n 0) ∷ [])) else (0, s);
  copy_nonoverlapping = λ source target s. put_at target (some source) s;
  dealloc = λ buffer size s. put_at buffer none s;
  aws_byte_buf_clean_up = λ buf s. s;
}

-- What holds of a block that there is room for holds of every one that is not null.
has_room :
    (n : ℕ) (s : Blocks)
    → (memory.alloc n s).0 ≢ 0
    → memory.alloc n s ≡ (suc (length s), s ++ (some (replicate n 0) ∷ []))
has_room n s got = elim (Bool-cases (ltb (length s) 3)) [
  | inl room ↦ rw room refl
  | inr full ↦ absurd (got (rw full refl))
]

memory_laws : MemoryLaws memory
memory_laws = record {
  block = block_at;
  alloc_new = λ n s h got. rw (has_room n s got) (at_index-length s);
  alloc_block =
      λ n s h got. (replicate n 0, length-replicate n 0, rw (has_room n s got) (at_index-last s _));
  alloc_others = λ n p s h got other.
      let new : p ≢ suc (length s) = rw (has_room n s got) at other in
      rw (has_room n s got) (block_at-new s _ p new);
  copied = λ source old target s there long. block_at-put s _ target old there;
  copy_others = λ source old target p s there long other. block_at-put_other s _ target p other;
  released = λ bytes buffer s there. block_at-put s _ buffer bytes there;
  release_others = λ bytes buffer p s there other. block_at-put_other s _ buffer p other;
}

not_null : (from memory (8 ∷ 9 ∷ []) []).0.buffer ≢ 0
unfolding from
not_null e = absurd (cc)

drop-from_example :
    memory_laws.block
      (drop memory (from memory (8 ∷ 9 ∷ []) []).0 (from memory (8 ∷ 9 ∷ []) []).1)
      1
    ≡ memory_laws.block [] 1
drop-from_example = drop-from memory memory_laws (8 ∷ 9 ∷ []) 1 [] (omega arith) not_null
