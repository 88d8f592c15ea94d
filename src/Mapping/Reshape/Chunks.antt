-- ===== src/Mapping/Reshape/Chunks.antt =====
-- core/mapping/applyMapping.js, core/validation/validateRows.js: bulk writes in chunks of 500.
use universal_data_onboarder.Base.{
  ℕ, ◌≡◌, refl, List, [], ◌∷◌, ◌++◌, append_assoc, append-nil, length, leb, Bool-cases, inl, inr,
  ap, ◌∙◌, sym, if◌then◌else◌,
}
use universal_data_onboarder.Store.{Store}
use universal_data_onboarder.Store.Rows.{BulkOp, bulk_write_staged, update_one_staged}

abbrev pub chunk_size : ℕ
chunk_size = 500

flush : Store → List BulkOp → Store
flush s [] = s
flush s (op ∷ ops) = bulk_write_staged s (op ∷ ops)

-- The loop over the operations: `bulkOps` are those that wait; what is left at the end is
-- written if there is any.
unfoldable pub write_in_chunks : Store → List BulkOp → List BulkOp → Store
unfolding flush
write_in_chunks s bulk_ops [] = flush s bulk_ops
write_in_chunks s bulk_ops (op ∷ ops) =
    let grown = bulk_ops ++ op ∷ [] in
    let full = write_in_chunks (bulk_write_staged s grown) [] ops in
    let waiting = write_in_chunks s grown ops in
    if leb chunk_size (length grown) then full else waiting

bulk_write-append :
    (s : Store) (xs ys : List BulkOp)
    → bulk_write_staged s (xs ++ ys) ≡ bulk_write_staged (bulk_write_staged s xs) ys
unfolding bulk_write_staged
bulk_write-append s [] ys = refl
bulk_write-append s (x ∷ xs) ys = bulk_write-append (update_one_staged s x.filter_by x.set) xs ys

flush-bulk_write : (s : Store) (ops : List BulkOp) → flush s ops ≡ bulk_write_staged s ops
unfolding flush bulk_write_staged
flush-bulk_write s [] = refl
flush-bulk_write s (op ∷ ops) = refl

-- The chunks write what one bulk write of all the operations would: none is lost at the border
-- of a chunk, and none is written twice.
pub write_in_chunks-eq-bulk_write :
    (s : Store) (waiting ops : List BulkOp)
    → write_in_chunks s waiting ops ≡ bulk_write_staged s (waiting ++ ops)
unfolding write_in_chunks
write_in_chunks-eq-bulk_write s waiting [] = rw append-nil (flush-bulk_write s waiting)
write_in_chunks-eq-bulk_write s waiting (op ∷ ops) =
    elim (Bool-cases (leb chunk_size (length (waiting ++ op ∷ [])))) [
      | inl e ↦ rw e (
          write_in_chunks-eq-bulk_write (bulk_write_staged s (waiting ++ op ∷ [])) [] ops
          ∙ sym (bulk_write-append s (waiting ++ op ∷ []) ops)
          ∙ ap (bulk_write_staged s) (append_assoc waiting (op ∷ []) ops))
      | inr e ↦ rw e (
          write_in_chunks-eq-bulk_write s (waiting ++ op ∷ []) ops
          ∙ ap (bulk_write_staged s) (append_assoc waiting (op ∷ []) ops))
    ]
