-- ===== src/Wal/Fields.antt =====
-- The bytes of a record, and what a round of the scan reads where a whole record stands.
use tinydb_cc_comet.Prelude.{
  ℕ, ◌+◌, ◌-◌, ◌^◌, ◌<◌, ◌≡◌, refl, ap, ◌∙◌, true, false, List, [], ◌∷◌, ◌++◌, append_assoc, arith,
  ltb, ◌==◌, length, slice, length-append, slice-field,
}
use tinydb_cc_comet.Errors.{ok}
use tinydb_cc_comet.Bytes.{
  Bytes, to_be, int_from_bytes, pack-ok, length-to_be, int_from_bytes-to_be,
}
use tinydb_cc_comet.Wal.{
  record_hdr_size, crc_size, Entry, got, encode_body, checksum, encode_record, check_record,
  read_at, encode_all,
}

-- The fields of a record fit the widths that they are packed in.
pub record EntryFits (r : Entry) : Type 0 where
  pub txn_fits : r.txn_id < 256 ^ 8
  pub kind_fits : r.kind < 256 ^ 1
  pub page_fits : r.page_id < 256 ^ 4
  pub payload_fits : length r.payload < 256 ^ 4

abbrev pub AllFit : List Entry → Type 0
AllFit [] = Unit
AllFit (r ∷ rs) = EntryFits r × AllFit rs

abbrev pub body_of : Entry → Bytes
body_of r =
    to_be 8 r.txn_id
    ++ (to_be 1 r.kind ++ (to_be 4 r.page_id ++ (to_be 4 (length r.payload) ++ r.payload)))

module _ (crc32 : Bytes → ℕ) where
  abbrev pub bytes_of : Entry → Bytes
  bytes_of r = body_of r ++ to_be 4 (checksum crc32 (body_of r))

  abbrev pub all_bytes : List Entry → Bytes
  all_bytes [] = []
  all_bytes (r ∷ rs) = bytes_of r ++ all_bytes rs

  checksum-lt : (body : Bytes) → checksum crc32 body < 256 ^ 4
  unfolding checksum
  checksum-lt body = omega arith

  pub encode_record-bytes_of : (r : Entry) → EntryFits r → encode_record crc32 r ≡ ok (bytes_of r)
  unfolding encode_record encode_body
  encode_record-bytes_of r f = rw (
    pack-ok 8 r.txn_id f.txn_fits,
    pack-ok 1 r.kind f.kind_fits,
    pack-ok 4 r.page_id f.page_fits,
    pack-ok 4 (length r.payload) f.payload_fits,
    pack-ok 4 (checksum crc32 (body_of r)) (checksum-lt (body_of r)),
  )

  pub encode_all-all_bytes : (rs : List Entry) → AllFit rs → encode_all crc32 rs ≡ ok (all_bytes rs)
  unfolding encode_all
  encode_all-all_bytes [] f = refl
  encode_all-all_bytes (r ∷ rs) (f, fs) =
      rw (encode_record-bytes_of r f, encode_all-all_bytes rs fs)

  length-body_of : (r : Entry) → length (body_of r) ≡ record_hdr_size + length r.payload
  length-body_of r = omega (
    arith,
    length-append (to_be 8 r.txn_id)
        (to_be 1 r.kind ++ (to_be 4 r.page_id ++ (to_be 4 (length r.payload) ++ r.payload))),
    length-append (to_be 1 r.kind) (to_be 4 r.page_id ++ (to_be 4 (length r.payload) ++ r.payload)),
    length-append (to_be 4 r.page_id) (to_be 4 (length r.payload) ++ r.payload),
    length-append (to_be 4 (length r.payload)) r.payload,
    length-to_be 8 r.txn_id,
    length-to_be 1 r.kind,
    length-to_be 4 r.page_id,
    length-to_be 4 (length r.payload),
  )

  pub length-bytes_of :
      (r : Entry) → length (bytes_of r) ≡ record_hdr_size + length r.payload + crc_size
  length-bytes_of r = omega (
    arith,
    length-append (body_of r) (to_be 4 (checksum crc32 (body_of r))),
    length-body_of r,
    length-to_be 4 (checksum crc32 (body_of r)),
  )

  module _ (pre : Bytes) (r : Entry) (rest : Bytes) (f : EntryFits r) where
    abbrev pub txn : Bytes
    txn = to_be 8 r.txn_id

    abbrev pub kin : Bytes
    kin = to_be 1 r.kind

    abbrev pub pid : Bytes
    pid = to_be 4 r.page_id

    abbrev pub len : Bytes
    len = to_be 4 (length r.payload)

    abbrev pub crc : Bytes
    crc = to_be 4 (checksum crc32 (body_of r))

    abbrev pub whole : Bytes
    whole = pre ++ (bytes_of r ++ rest)

    abbrev pub pos : ℕ
    pos = length pre

    abbrev pub payload_end : ℕ
    payload_end = pos + record_hdr_size + length r.payload

    txn_read : int_from_bytes (slice pos (pos + 8) whole) ≡ r.txn_id
    txn_read =
        ap int_from_bytes (
          slice-field pos (pos + 8) whole pre txn
            (kin ++ (pid ++ (len ++ (r.payload ++ (crc ++ rest))))) (simp append_assoc) refl
            (omega (arith, length-to_be 8 r.txn_id)))
        ∙ int_from_bytes-to_be 8 r.txn_id f.txn_fits

    kind_read : int_from_bytes (slice (pos + 8) (pos + 9) whole) ≡ r.kind
    kind_read =
        ap int_from_bytes (
          slice-field (pos + 8) (pos + 9) whole (pre ++ txn) kin
            (pid ++ (len ++ (r.payload ++ (crc ++ rest)))) (simp append_assoc)
            (omega (arith, length-append pre txn, length-to_be 8 r.txn_id))
            (omega (arith, length-to_be 1 r.kind)))
        ∙ int_from_bytes-to_be 1 r.kind f.kind_fits

    page_read : int_from_bytes (slice (pos + 9) (pos + 13) whole) ≡ r.page_id
    page_read =
        ap int_from_bytes (
          slice-field (pos + 9) (pos + 13) whole (pre ++ (txn ++ kin)) pid
            (len ++ (r.payload ++ (crc ++ rest))) (simp append_assoc)
            (omega (
              arith,
              length-append pre (txn ++ kin),
              length-append txn kin,
              length-to_be 8 r.txn_id,
              length-to_be 1 r.kind,
            ))
            (omega (arith, length-to_be 4 r.page_id)))
        ∙ int_from_bytes-to_be 4 r.page_id f.page_fits

    length_header : length (pre ++ (txn ++ (kin ++ pid))) ≡ pos + 13
    length_header = omega (
      arith,
      length-append pre (txn ++ (kin ++ pid)),
      length-append txn (kin ++ pid),
      length-append kin pid,
      length-to_be 8 r.txn_id,
      length-to_be 1 r.kind,
      length-to_be 4 r.page_id,
    )

    pub len_read : int_from_bytes (slice (pos + 13) (pos + 17) whole) ≡ length r.payload
    len_read =
        ap int_from_bytes (
          slice-field (pos + 13) (pos + 17) whole (pre ++ (txn ++ (kin ++ pid))) len
            (r.payload ++ (crc ++ rest)) (simp append_assoc) length_header
            (omega (arith, length-to_be 4 (length r.payload))))
        ∙ int_from_bytes-to_be 4 (length r.payload) f.payload_fits

    length_before_payload : length ((pre ++ (txn ++ (kin ++ pid))) ++ len) ≡ pos + 17
    length_before_payload = omega (
      arith,
      length-append (pre ++ (txn ++ (kin ++ pid))) len,
      length_header,
      length-to_be 4 (length r.payload),
    )

    payload_read : slice (pos + 17) payload_end whole ≡ r.payload
    payload_read =
        slice-field (pos + 17) payload_end whole ((pre ++ (txn ++ (kin ++ pid))) ++ len) r.payload
          (crc ++ rest) (simp append_assoc) length_before_payload refl

    body_read : slice pos payload_end whole ≡ body_of r
    body_read =
        slice-field pos payload_end whole pre (body_of r) (crc ++ rest) (simp append_assoc) refl
          (omega (arith, length-body_of r))

    crc_read :
        int_from_bytes (slice payload_end (payload_end + 4) whole) ≡ checksum crc32 (body_of r)
    crc_read =
        ap int_from_bytes (
          slice-field payload_end (payload_end + 4) whole (pre ++ body_of r) crc rest
            (simp append_assoc) (omega (arith, length-append pre (body_of r), length-body_of r))
            (omega (arith, length-to_be 4 (checksum crc32 (body_of r)))))
        ∙ int_from_bytes-to_be 4 (checksum crc32 (body_of r)) (checksum-lt (body_of r))

    pub length-whole : length whole ≡ payload_end + crc_size + length rest
    length-whole = omega (
      arith,
      length-append pre (bytes_of r ++ rest),
      length-append (bytes_of r) rest,
      length-bytes_of r,
    )

    -- A record that stands whole in the buffer is yielded as it was appended.
    pub read_at-whole : read_at crc32 pos whole ≡ got r (pos + length (bytes_of r))
    unfolding read_at check_record
    read_at-whole =
        let t : ltb (length whole - pos) (record_hdr_size + crc_size) ≡ false =
          ground (arith, length-whole) in
        let t' : ltb (length whole) (payload_end + crc_size) ≡ false =
          ground (arith, length-whole) in
        let c : (int_from_bytes (slice payload_end (payload_end + 4) whole)
              == checksum crc32 (slice pos payload_end whole))
            ≡ true =
          ground (arith, crc_read, ap (checksum crc32) body_read) in
        let end : payload_end + crc_size ≡ pos + length (bytes_of r) =
          omega (arith, length-bytes_of r) in
        rw (t, len_read, t', c)
          (λ i.
            got
              (record {
                txn_id = txn_read i;
                kind = kind_read i;
                page_id = page_read i;
                payload = payload_read i;
              })
              (end i))
