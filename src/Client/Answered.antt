-- ===== src/Client/Answered.antt =====
-- What the time client makes of the daemon's answers.
use disco.Base.{
  Str, Str_eq, str_eq, bytes, pos, true, false, List, [], ◌∷◌, none, ◌≡◌, refl, ap, ◌≟◌, All,
  Bool-cases, inl, inr,
}
use disco.Dict.{lookup}
use disco.Timesync.Floats.{Floats}
use disco.Protocol.{Response, Payload}
use disco.Client.{
  Object, Field, object_of, response_fields, marshal_response, unmarshal_query, TimeStatus,
  status_of, force_result_of, force_request, as_text, as_bool, as_number,
}

module _ (fl : Floats) where
  -- A key that no field has is not found.
  lookup-object_of :
      (k : Str) (fields : List (Field fl))
      → All (λ f. (f.key ≟ k) ≡ false) fields
      → lookup k (object_of fl fields) ≡ none
  unfolding object_of lookup
  lookup-object_of k [] h = refl
  lookup-object_of k (f ∷ fields) (other, rest) = elim (Bool-cases f.omitted) [
    | inl e ↦ rw e (lookup-object_of k fields rest)
    | inr e ↦ rw e (rw other (lookup-object_of k fields rest))
  ]

  -- The values that the client starts from.
  abbrev pub blank_status : TimeStatus fl
  blank_status = record {
    synced = false;
    source_count = pos 0;
    last_offset = fl.zero;
    last_sync_time = [];
    last_error = [];
  }

  foreign_blank :
      (resp : Object fl)
      → lookup (bytes "synced") resp ≡ none
      → lookup (bytes "source_count") resp ≡ none
      → lookup (bytes "last_offset") resp ≡ none
      → lookup (bytes "last_sync_time") resp ≡ none
      → lookup (bytes "last_error") resp ≡ none
      → status_of fl resp ≡ blank_status
  unfolding status_of
  foreign_blank resp a b c d e = rw (a, b, c, d, e) refl

  abbrev marshalled : (Payload fl → Str) → Response fl → Object fl
  marshalled = marshal_response fl

  -- Whatever the daemon answers, the client shows that the clock is not synchronised, with no source,
  -- no time and no error, and takes a forced update for a failure with no method and no offset: the
  -- daemon's values are within the records of the response, which the client does not read. Nor does
  -- the daemon read whether the client allows a step backward.
  pub client-blind :
      (encode_records : Payload fl → Str) (r : Response fl) (id : Str)
      → (status_of fl (marshalled encode_records r) ≡ blank_status)
        × ((force_result_of fl (marshalled encode_records r)).success ≡ false)
        × ((force_result_of fl (marshalled encode_records r)).offset ≡ fl.zero)
        × ((force_result_of fl (marshalled encode_records r)).method ≡ [])
        × (unmarshal_query fl (force_request fl true id)
            ≡ unmarshal_query fl (force_request fl false id))
  unfolding force_result_of unmarshal_query force_request response_fields marshal_response str_eq
      lookup
  client-blind encode_records r id = (
    foreign_blank (marshalled encode_records r)
        (unread (bytes "synced")
          (refl, (refl, (refl, (refl, (refl, (refl, (refl, (refl, (refl, (refl, tt)))))))))))
        (unread (bytes "source_count")
          (refl, (refl, (refl, (refl, (refl, (refl, (refl, (refl, (refl, (refl, tt)))))))))))
        (unread (bytes "last_offset")
          (refl, (refl, (refl, (refl, (refl, (refl, (refl, (refl, (refl, (refl, tt)))))))))))
        (unread (bytes "last_sync_time")
          (refl, (refl, (refl, (refl, (refl, (refl, (refl, (refl, (refl, (refl, tt)))))))))))
        (unread (bytes "last_error")
          (refl, (refl, (refl, (refl, (refl, (refl, (refl, (refl, (refl, (refl, tt))))))))))),
    ap (as_bool fl) (
        unread (bytes "success")
          (refl, (refl, (refl, (refl, (refl, (refl, (refl, (refl, (refl, (refl, tt))))))))))),
    ap (as_number fl) (
        unread (bytes "offset")
          (refl, (refl, (refl, (refl, (refl, (refl, (refl, (refl, (refl, (refl, tt))))))))))),
    ap (as_text fl) (
        unread (bytes "method")
          (refl, (refl, (refl, (refl, (refl, (refl, (refl, (refl, (refl, (refl, tt))))))))))),
    refl,
  )
    where
      unread :
          (k : Str)
          → All (λ f. (f.key ≟ k) ≡ false) (response_fields fl encode_records r)
          → lookup k (marshalled encode_records r) ≡ none
      unread k h = lookup-object_of k (response_fields fl encode_records r) h
