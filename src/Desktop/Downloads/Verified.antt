-- ===== src/Desktop/Downloads/Verified.antt =====
-- Only a verified file takes the place of a download
-- (apps/desktop/src-tauri/src/commands/mod.rs).
use link_pilot.Prelude.{
  String, ◌≡◌, ◌≢◌, inl, inr, refl, sym, ap, ◌∙◌, none, some, Result, ok, err, arith, ◌==◌, eq_iff,
  Bool-cases, Result-cases,
}
use link_pilot.Core.Files.{FilePath, Disk, exists, remove_file, rename}
use link_pilot.Core.Files.Laws.{stored_ne, rename_ok, rename_err, rename_puts}
use link_pilot.Desktop.Downloads.{
  Net, Output, sha256_of_file, discard, fetch, clear, check_status, compare_digest, verify,
  download_update_asset,
}

module _ {Url : Type 0} (net : Net Url) (tmp destination : FilePath)
    (apart : tmp ≢ destination) where
  -- The step leaves the destination alone.
  files-remove_file : (d : Disk) → (remove_file tmp d).1.files destination ≡ d.files destination
  unfolding remove_file
  files-remove_file d = ground (arith, stored_ne d.files tmp destination none apart)

  files-clear : (d : Disk) → (clear net tmp d).1.files destination ≡ d.files destination
  unfolding clear
  files-clear d = elim (Bool-cases (exists tmp d)) [
    | inl there ↦ rw there (files-remove_file d)
    | inr missing ↦ rw missing refl
  ]

  files-fetch :
      (url : String) (d : Disk) → (fetch net url tmp d).1.files destination ≡ d.files destination
  unfolding fetch
  files-fetch url d = elim (Result-cases (net.curl url)) [
    | inl ((output, content), done) ↦
        rw (done, fetch) (stored_ne d.files tmp destination content apart)
    | inr (e, failed) ↦ rw (failed, fetch) refl
  ]

  files-check_status :
      (output : Output) (d : Disk)
      → (check_status net tmp output d).1.files destination ≡ d.files destination
  unfolding check_status discard
  files-check_status output d = elim (Bool-cases output.success) [
    | inl good ↦ rw good refl
    | inr bad ↦ rw bad (files-remove_file d)
  ]

  files-verify :
      (expected : String) (d : Disk)
      → (verify net tmp (some expected) d).1.files destination ≡ d.files destination
  unfolding verify compare_digest discard
  files-verify expected d = elim (Result-cases (sha256_of_file net (d.files tmp))) [
    | inl (actual, known) ↦ elim (Bool-cases (actual == expected)) [
      | inl same ↦ rw (known, same, compare_digest) refl
      | inr other ↦ rw (known, other, compare_digest) (files-remove_file d)
    ]
    | inr (e, failed) ↦ rw (failed, compare_digest) (files-remove_file d)
  ]

  -- A check that goes well has found the digest, and changes nothing.
  verify_ok :
      (expected : String) (d : Disk)
      → (verify net tmp (some expected) d).0 ≡ ok tt
      → (sha256_of_file net (d.files tmp) ≡ ok expected)
        × ((verify net tmp (some expected) d).1 ≡ d)
  unfolding verify compare_digest discard
  verify_ok expected d h = elim (Result-cases (sha256_of_file net (d.files tmp))) [
    | inl (actual, known) ↦ elim (Bool-cases (actual == expected)) [
      | inl same ↦ (
        known ∙ ap (λ s. ok s) ((eq_iff actual expected).0 same),
        rw (known, same, compare_digest) refl,
      )
      | inr other ↦ cc (rw (known, other, compare_digest) at h)
    ]
    | inr (e, failed) ↦ cc (rw (failed, compare_digest) at h)
  ]

  -- What a download leaves at the destination, by its result.
  pub record Downloaded (expected : String) (before : Disk) (r : Result (Unit {0}) String)
      (after : Disk) : Type 0 where
    pub saved :
        r ≡ ok tt
        → (content : String) × (after.files destination ≡ some content)
          × (sha256_of_file net (some content) ≡ ok expected)
    pub kept : (e : String) → r ≡ err e → after.files destination ≡ before.files destination

  -- A download with an expected digest leaves a file with that digest at the destination, or, after
  -- any error, what was there before. The temporary name must differ.
  pub download_update_asset-Downloaded :
      (url expected : String) (d : Disk)
      → Downloaded expected d
          (download_update_asset net url tmp destination (some expected) d).0
          (download_update_asset net url tmp destination (some expected) d).1
  unfolding download_update_asset
  download_update_asset-Downloaded url expected d =
      let d1 : Disk = (clear net tmp d).1 in
      let d2 : Disk = (fetch net url tmp d1).1 in
      elim (Result-cases (clear net tmp d).0) [
        | inr (e, failed) ↦ rw failed (record { saved = λ h. cc; kept = λ e' h. files-clear d })
        | inl (u, cleared) ↦ elim (Result-cases (fetch net url tmp d1).0) [
          | inr (e, failed) ↦
              rw (cleared, failed)
                (record { saved = λ h. cc; kept = λ e' h. files-fetch url d1 ∙ files-clear d })
          | inl (output, fetched) ↦
              let d3 : Disk = (check_status net tmp output d2).1 in
              let same3 = files-check_status output d2 ∙ files-fetch url d1 ∙ files-clear d in
              elim (Result-cases (check_status net tmp output d2).0) [
                | inr (e, failed) ↦
                    rw (cleared, fetched, failed) (record { saved = λ h. cc; kept = λ e' h. same3 })
                | inl (v, checked) ↦
                    let d4 : Disk = (verify net tmp (some expected) d3).1 in
                    let same4 = files-verify expected d3 ∙ same3 in
                    elim (Result-cases (verify net tmp (some expected) d3).0) [
                      | inr (e, failed) ↦
                          rw (cleared, fetched, checked, failed)
                            (record { saved = λ h. cc; kept = λ e' h. same4 })
                      | inl (w, verified) ↦
                          let digest = verify_ok expected d3 verified in
                          elim (Result-cases (rename tmp destination d4).0) [
                            | inr (e, failed) ↦
                                rw (cleared, fetched, checked, verified, failed)
                                  (record {
                                    saved = λ h. cc;
                                    kept = λ e' h.
                                        ap (λ f. f destination)
                                          (rename_err d4 tmp destination e failed)
                                        ∙ same4;
                                  })
                            | inl (x, renamed) ↦
                                let (content, there, made) = rename_ok d4 tmp destination renamed in
                                rw (cleared, fetched, checked, verified, renamed)
                                  (record {
                                    saved = λ h. (
                                      content,
                                      rename_puts tmp destination d4 content there renamed,
                                      ap (sha256_of_file net)
                                            (sym there ∙ ap (λ (c : Disk). c.files tmp) digest.1)
                                          ∙ digest.0,
                                    );
                                    kept = λ e' h. cc;
                                  })
                          ]
                    ]
              ]
        ]
      ]
