-- ===== src/Mapping/Reshape/Laws.antt =====
-- core/mapping/applyMapping.js: what `applyMapping` does to the store, in success and in failure.
use universal_data_onboarder.Base.{
  ◌≡◌, ◌≢◌, refl, Bool, false, [], ◌∷◌, map, none, some, Text, arith, Bool-cases, inl, inr,
  if◌then◌else◌, ap, ◌∙◌, sym, Option,
}
use universal_data_onboarder.Base.Dict.{Dict}
use universal_data_onboarder.Base.Result.{Result, ok, err, ok-injective}
use universal_data_onboarder.Value.{Host}
use universal_data_onboarder.Registry.{Registry, FieldSpec}
use universal_data_onboarder.Store.{Store, Job, mapped, StagedRow}
use universal_data_onboarder.Store.Rows.{
  tenant_is, job_is, all_rows, map_rows, matches, cursor_staged,
}
use universal_data_onboarder.Store.Jobs.{
  upsert_mapping_profile, get_job, save_job-rows, save_job-get_job,
}
use universal_data_onboarder.Store.Laws.{DistinctIds, bulk_write-by_id}
use universal_data_onboarder.Mapping.Reshape.{
  MappingError, label_required, Options, plan, row_op, write_rows, carry_out, save_profile,
  blank_label, finish_job, apply_mapping,
}
use universal_data_onboarder.Mapping.Reshape.Row.{reshape_row}
use universal_data_onboarder.Mapping.Reshape.Chunks.{write_in_chunks-eq-bulk_write}

-- The rows of the job.
abbrev pub of_job : Text → Job → StagedRow → Bool
of_job tenant_id job = matches (tenant_is tenant_id ∷ job_is job.id ∷ [])

-- A row with the fields that the field map gives it.
abbrev pub mapped_row : Host → Dict FieldSpec → Dict Text → StagedRow → StagedRow → StagedRow
mapped_row h fields entries r q = record q {
  mapped_fields = some (reshape_row h fields entries r.raw_row).0;
  custom_fields = (reshape_row h fields entries r.raw_row).1;
}

write_rows-map :
    (h : Host) (s : Store) (tenant_id : Text) (job : Job) (fields : Dict FieldSpec)
    (entries : Dict Text)
    → DistinctIds (all_rows s.staged_records)
    → (write_rows h s tenant_id job fields entries).staged_records
      ≡ map_rows
          (λ q. if of_job tenant_id job q then mapped_row h fields entries q q else q)
          s.staged_records
unfolding write_rows row_op cursor_staged
write_rows-map h s tenant_id job fields entries d =
    ap (λ (t : Store). t.staged_records)
      (write_in_chunks-eq-bulk_write s [] (
        map (row_op h fields entries)
          (cursor_staged s (tenant_is tenant_id ∷ job_is job.id ∷ []) false none)))
    ∙ bulk_write-by_id (mapped_row h fields entries) (λ r q. refl) (of_job tenant_id job) s d

-- The job that is returned is the stored one, and has the mapping.
abbrev pub IsMappedAs : Text → Dict Text → Job → Store → Job → Type 0
IsMappedAs entity_key field_map job s j =
    (get_job s job.tenant_id job.id ≡ ok j)
    × (j.status ≡ mapped)
    × (j.entity_key ≡ some entity_key)
    × (j.field_map ≡ some field_map)

finish_job-IsMappedAs :
    (s : Store) (job j : Job) (o : Options) (profile_id : Option Text)
    → (finish_job s job o profile_id).1 ≡ ok j
    → ((finish_job s job o profile_id).0.staged_records ≡ s.staged_records)
      × IsMappedAs o.entity_key o.field_map job (finish_job s job o profile_id).0 j
unfolding finish_job
finish_job-IsMappedAs s job j o profile_id e =
    let same = ok-injective e in
    (
      save_job-rows s _,
      (
        save_job-get_job s _ ∙ ap ok same,
        ap (λ (t : Job). t.status) (sym same),
        ap (λ (t : Job). t.entity_key) (sym same),
        ap (λ (t : Job). t.field_map) (sym same),
      ),
    )

save_profile-ok :
    (s : Store) (tenant_id : Text) (job j : Job) (o : Options)
    → (save_profile s tenant_id job o).1 ≡ ok j
    → ((save_profile s tenant_id job o).0.staged_records ≡ s.staged_records)
      × IsMappedAs o.entity_key o.field_map job (save_profile s tenant_id job o).0 j
unfolding save_profile upsert_mapping_profile
save_profile-ok s tenant_id job j o e = elim (Bool-cases o.save_as_profile) [
  | inl p ↦ elim (Bool-cases (blank_label o.profile_label)) [
    | inl b ↦ absurd (cc (rw (p, b) at e))
    | inr b ↦ rw (p, b) (finish_job-IsMappedAs _ job j o _ (rw (p, b) at e))
  ]
  | inr p ↦ rw p (finish_job-IsMappedAs s job j o job.mapping_profile_id (rw p at e))
]

-- Only the missing label is found after the first write.
save_profile-err :
    (s : Store) (tenant_id : Text) (job : Job) (o : Options) (e : MappingError)
    → (save_profile s tenant_id job o).1 ≡ err e
    → e ≡ label_required
unfolding save_profile finish_job
save_profile-err s tenant_id job o e q = ground arith

carry_out_atomic :
    (h : Host) (s : Store) (tenant_id : Text) (o : Options) (e : MappingError)
    (p : Result MappingError (Job × Dict FieldSpec))
    → (carry_out h s tenant_id o p).1 ≡ err e
    → e ≢ label_required
    → (carry_out h s tenant_id o p).0 ≡ s
unfolding carry_out
carry_out_atomic h s tenant_id o e (err x) q n = refl
carry_out_atomic h s tenant_id o e (ok (job, fields)) q n =
    absurd
      (n (save_profile-err (write_rows h s tenant_id job fields o.field_map) tenant_id job o e q))

carry_out_ok :
    (h : Host) (s : Store) (tenant_id : Text) (o : Options) (j : Job)
    → DistinctIds (all_rows s.staged_records)
    → (p : Result MappingError (Job × Dict FieldSpec)) → (carry_out h s tenant_id o p).1 ≡ ok j
    → (job : Job) × (fields : Dict FieldSpec) × (p ≡ ok (job, fields))
      × ((carry_out h s tenant_id o p).0.staged_records
          ≡ map_rows
              (λ q. if of_job tenant_id job q then mapped_row h fields o.field_map q q else q)
              s.staged_records)
      × IsMappedAs o.entity_key o.field_map job (carry_out h s tenant_id o p).0 j
unfolding carry_out
carry_out_ok h s tenant_id o j d (err x) e = absurd (cc e)
carry_out_ok h s tenant_id o j d (ok (job, fields)) e =
    let (rows, is_mapped) =
      save_profile-ok (write_rows h s tenant_id job fields o.field_map) tenant_id job j o e in
    (job, fields, refl, rows ∙ write_rows-map h s tenant_id job fields o.field_map d, is_mapped)

-- When `applyMapping` fails for another reason than the missing label of a profile, the store is
-- as it was.
pub apply_mapping_atomic :
    (h : Host) (registry : Registry) (s : Store) (tenant_id job_id : Text) (o : Options)
    (e : MappingError)
    → (apply_mapping h registry s tenant_id job_id o).1 ≡ err e
    → e ≢ label_required
    → (apply_mapping h registry s tenant_id job_id o).0 ≡ s
unfolding apply_mapping carry_out
apply_mapping_atomic h registry s tenant_id job_id o e q n =
    carry_out_atomic h s tenant_id o e (plan registry s tenant_id job_id o) q n

-- When `applyMapping` succeeds in a store where no id stands on two rows, each row of the job,
-- and no other, has the fields that the field map gives its raw row; and the job that the
-- store holds then is the one that is returned, `mapped`, with this entity and this field map.
pub apply_mapping_ok :
    (h : Host) (registry : Registry) (s : Store) (tenant_id job_id : Text) (o : Options) (j : Job)
    → DistinctIds (all_rows s.staged_records)
    → (apply_mapping h registry s tenant_id job_id o).1 ≡ ok j
    → (job : Job) × (fields : Dict FieldSpec) × (plan registry s tenant_id job_id o
        ≡ ok (job, fields))
      × ((apply_mapping h registry s tenant_id job_id o).0.staged_records
          ≡ map_rows
              (λ q. if of_job tenant_id job q then mapped_row h fields o.field_map q q else q)
              s.staged_records)
      × IsMappedAs o.entity_key o.field_map job (apply_mapping h registry s tenant_id job_id o).0 j
unfolding apply_mapping
apply_mapping_ok h registry s tenant_id job_id o j d e =
    carry_out_ok h s tenant_id o j d (plan registry s tenant_id job_id o) e
