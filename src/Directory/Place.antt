-- ===== src/Directory/Place.antt =====
-- The loop of `add_new_entry` against the insertion of an entry into a list of entries.
use file_system_fuse.Base.{
  ℕ, zero, suc, ◌+◌, ◌-◌, ◌^◌, ◌≤◌, ◌<◌, ◌≡◌, ◌⊎◌, ◌∙◌, refl, true, false, List, [], ◌∷◌, length,
  if◌then◌else◌, leb, inl, inr, Bool-cases, Option, none, some, arith, All,
}
use file_system_fuse.Base.Ssize.{slt, sle, add_ssize, sub_ssize}
use file_system_fuse.Bytes.{Block, store}
use file_system_fuse.Bytes.Words.{store_byte}
use file_system_fuse.Fs.{Fs, ok}
use file_system_fuse.Disk.{block_size}
use file_system_fuse.FilePath.{Chars}
use file_system_fuse.Directory.{
  size_at, length_at, name_at, access, put_record, place_entry, placed, no_room, max_name_length,
}
use file_system_fuse.Directory.Records.{Entry, IsRecord, IsRecords, field-in}
use file_system_fuse.Directory.Write.{
  resized-IsRecord, IsRecord-Agree, IsRecords-Agree, put_record-out, put_record-IsRecord,
}

-- What an entry needs of the room of its record.
abbrev pub used : Entry → ℕ
used e = name_at + length e.name

abbrev pub in_front : Entry → Option (List Entry) → Option (List Entry)
in_front e none = none
in_front e (some es) = some (e ∷ es)

-- The first entry with room behind its name is split in two.
unfoldable pub insert : ℕ → Chars → List Entry → Option (List Entry)
insert inum name [] = none
insert inum name (e ∷ es) =
    let rest = insert inum name es in
    if leb (name_at + length name) (e.size - used e)
    then some (
        record e { size = used e }
        ∷ record { inum = inum; size = e.size - used e; name = name }
        ∷ es)
    else in_front e rest

module _ (inum : ℕ) (name : Chars) (s : Fs) (fits : inum < 2 ^ 64)
    (short : length name ≤ max_name_length) (bytes : All (λ c. c < 256) name) where
  -- What a run of the loop from `p` on does to the block.
  abbrev pub Placed : (fuel p : ℕ) → Block → List Entry → Type 0
  Placed fuel p b es =
      ((insert inum name es ≡ none) × (place_entry fuel p inum name b s ≡ ok no_room s))
      ⊎ ((es' : List Entry) × (c : Block) × (insert inum name es ≡ some es')
          × (place_entry fuel p inum name b s ≡ ok (placed c) s)
          × IsRecords c p es'
          × ((q : ℕ) → q < p → c q ≡ b q))

  module _ (b : Block) (p : ℕ) (e : Entry) (r : IsRecord b p e) where
    abbrev cut : Block
    cut = store 8 b (p + size_at) (used e)

    abbrev split : Block
    split = put_record cut (p + used e) inum (e.size - used e) name

    cut-IsRecord : IsRecord cut p (record e { size = used e })
    cut-IsRecord = resized-IsRecord b p (used e) e r (omega arith) (omega (arith, r.room, r.within))

    -- Before the new record only the size of the old one changes, and nothing behind it.
    split-IsRecord : IsRecord split p (record e { size = used e })
    split-IsRecord =
        IsRecord-Agree cut split p (record e { size = used e })
          (λ q l u. put_record-out cut (p + used e) inum (e.size - used e) name q (inl u))
          cut-IsRecord

    split-out :
        name_at + length name ≤ e.size - used e
        → (q : ℕ) → (q < p) ⊎ (p + e.size ≤ q)
        → split q ≡ b q
    split-out h q o =
        put_record-out cut (p + used e) inum (e.size - used e) name q (omega (arith, o, r.room))
        ∙ store_byte 8 b (p + size_at) (used e) q (omega (arith, o, r.room))

    run_split :
        (fuel : ℕ)
        → name_at + length name ≤ e.size - used e
        → place_entry (suc fuel) p inum name b s ≡ ok (placed split) s
    unfolding place_entry access
    run_split fuel h =
        let inside : slt p block_size ≡ true = unfold slt in ground (arith, r.room, r.within) in
        let left : sub_ssize e.size (used e) ≡ e.size - used e = omega (arith, r.room, r.within) in
        let enough : sle (name_at + length name) (e.size - used e) ≡ true =
          unfold sle in ground (arith, r.within) in
        rw
          (
            inside,
            field-in 8 (p + size_at) b s (omega (arith, r.room, r.within)),
            field-in 2 (p + length_at) b s (omega (arith, r.room, r.within)),
            r.size,
            r.name_length,
            left,
            enough,
          )
          (ground (arith, r.within, r.room))

    run_on :
        (fuel : ℕ)
        → leb (name_at + length name) (e.size - used e) ≡ false
        → place_entry (suc fuel) p inum name b s ≡ place_entry fuel (p + e.size) inum name b s
    unfolding place_entry
    run_on fuel h =
        let inside : slt p block_size ≡ true = unfold slt in ground (arith, r.room, r.within) in
        let left : sub_ssize e.size (used e) ≡ e.size - used e = omega (arith, r.room, r.within) in
        let full : sle (name_at + length name) (e.size - used e) ≡ false =
          unfold sle in ground (arith, r.within, short, h) in
        let sized : sle e.size 0 ≡ false = unfold sle in ground (arith, r.room, r.within) in
        let sum : add_ssize p e.size ≡ p + e.size = omega (arith, r.room, r.within) in
        rw
          (
            inside,
            field-in 8 (p + size_at) b s (omega (arith, r.room, r.within)),
            field-in 2 (p + length_at) b s (omega (arith, r.room, r.within)),
            r.size,
            r.name_length,
            left,
            full,
            sized,
            sum,
          )
          refl

  -- The loop with fuel for as many bytes as are left does what `insert` says.
  pub place_entry_lem :
      (fuel p : ℕ) (b : Block) (es : List Entry)
      → IsRecords b p es
      → block_size < p + fuel
      → Placed fuel p b es
  unfolding insert place_entry
  place_entry_lem zero p b [] r u = absurd (omega arith)
  place_entry_lem (suc fuel) p b [] r u =
      let past : slt p block_size ≡ false = unfold slt in ground (arith, r) in
      inl (refl, rw past refl)
  place_entry_lem zero p b (e ∷ es) (r, rs) u = absurd (omega (arith, r.within))
  place_entry_lem (suc fuel) p b (e ∷ es) (r, rs) u =
      elim (Bool-cases (leb (name_at + length name) (e.size - used e))) [
        | inl h ↦
            let enough : name_at + length name ≤ e.size - used e = ground (arith, h) in
            let behind : p + used e + (e.size - used e) ≡ p + e.size = omega (arith, r.room) in
            inr (
              record e { size = used e }
                  ∷ record { inum = inum; size = e.size - used e; name = name }
                  ∷ es,
              split b p e r,
              rw h refl,
              run_split b p e r fuel enough,
              (
                split-IsRecord b p e r,
                (
                  put_record-IsRecord (cut b p e r) (p + used e) inum (e.size - used e) name fits
                      (omega (arith, r.within)) (omega arith) bytes enough
                      (omega (arith, r.within, r.room)),
                  rw behind (
                      IsRecords-Agree b (split b p e r) (p + e.size) es
                        (λ q l v. split-out b p e r enough q (inr l)) rs),
                ),
              ),
              λ q l. split-out b p e r enough q (inl l),
            )
        | inr h ↦ elim (place_entry_lem fuel (p + e.size) b es rs (omega (arith, r.room))) [
          | inl (skipped, run) ↦ inl (rw (h, skipped) refl, run_on b p e r fuel h ∙ run)
          | inr (es', c, inserted, run, rs', same) ↦ inr (
            e ∷ es',
            c,
            rw (h, inserted) refl,
            run_on b p e r fuel h ∙ run,
            (IsRecord-Agree b c p e (λ q l v. same q v) r, rs'),
            λ q l. same q (omega arith),
          )
        ]
      ]
