-- ===== src/Tests/Runnable.antt =====
-- A run of `sign_hap` on an archive with a native file, which is code-signed.
use hap_resigner.Prelude.{
  Bool, true, false, [], ◌∷◌, ◌++◌, replicate, none, Result, ok, err, Bytes, codes,
}
use hap_resigner.Format.{HapLayout}
use hap_resigner.SignErrors.{HapSignError}
use hap_resigner.External.{Libraries, stored}
use hap_resigner.Tests.Samples.{sample}

-- The EOCD record of an archive whose central directory is empty and stands at 3.
abbrev eocd_at_3 : Bytes
eocd_at_3 = codes "PK" ++ (5 ∷ 6 ∷ replicate 12 0 ++ (3 ∷ 0 ∷ 0 ∷ 0 ∷ 0 ∷ 0 ∷ []))

-- One native file of three bytes, at the start of the archive.
abbrev runnable : Libraries
runnable = record sample {
  zip_open = λ b. ok (record {
    comment = [];
    files =
        ok (record {
          name = codes "libs/a.so";
          is_dir = false;
          compression = stored;
          size = 3;
          data_start = 0;
          options = 0;
          read = λ limit. ok (7 ∷ 8 ∷ 9 ∷ []);
        })
        ∷ [];
  });
  finish = λ w. ok (w ++ eocd_at_3);
}

abbrev is_ok : Result HapSignError Bytes → Bool
is_ok (ok b) = true
is_ok (err e) = false

abbrev value_of : Result HapSignError Bytes → Bytes
value_of (ok b) = b
value_of (err e) = []

abbrev empty_layout : HapLayout
empty_layout = record {
  eocd_offset = 0;
  central_directory_offset = 0;
  central_directory_size = 0;
  signing_block = none;
}
