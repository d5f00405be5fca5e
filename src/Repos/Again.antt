-- ===== src/Repos/Again.antt =====
-- A file that is sent again, with the repositories behind the ports.
use edifact_parser.Base.{some, List, [], ◌∷◌, Bytes, ◌≡◌, refl, ap, ◌∙◌, inl, inr, eq_of-some}
use edifact_parser.Domain.{ok}
use edifact_parser.Domain.Interchange.{Interchange, completed}
use edifact_parser.Domain.Entities.{Message}
use edifact_parser.Ingestion.Action.{◌>>=◌, pure, wrapped}
use edifact_parser.Ingestion.Ports
use edifact_parser.Ingestion.Yields.{Result-cases, ok-injective, wrap-ok, keeps-bind}
use edifact_parser.Ingestion.Again.{Durable, known, ingest_file-again}
use edifact_parser.Ingestion.Service.{replied, ingest_file}
use edifact_parser.Repos.Database.{Database, Codec}
use edifact_parser.Repos.Messages.{db_error, message_rows, bulk_create}
use edifact_parser.Repos.Versions.{row_of_version, create_version}
use edifact_parser.Repos.Subscriptions.{
  stamped_subscription, subscription_error, upsert_by_identifier,
}
use edifact_parser.Repos.Interchanges.{create_error, create_interchange, find_by_content_hash}
use edifact_parser.Repos.Service.{
  Outside, found_interchange, repository_ports, KeepsRows, found_state,
}

module _ {S : Type 0} (db : Database S) (codec : Codec) (outside : Outside S)
    (parser_version : Bytes) (keeps : KeepsRows db outside) where
  pub upsert-keeps :
      (i : Interchange) (b : Bytes) (s : S)
      → keeps.Row i s
      → keeps.Row i (upsert_by_identifier db outside.new_stamp b s).1
  unfolding upsert_by_identifier
  upsert-keeps i b s k =
      keeps-bind (keeps.Row i) (stamped_subscription db outside.new_stamp b)
        (λ sub. wrapped db_error (db.insert_subscription sub) >>= λ _.
          wrapped subscription_error (db.select_subscription_by_identifier b))
        s (keeps.stamps i s k)
        λ sub t stamped.
          keeps-bind (keeps.Row i) (wrapped db_error (db.insert_subscription sub))
            (λ _. wrapped subscription_error (db.select_subscription_by_identifier b)) t
            (keeps.insert_subscription i sub t stamped)
            λ _ u inserted. keeps.select_subscription i b u inserted

  pub bulk_create-keeps :
      (i : Interchange) (ms : List Message) (s : S)
      → keeps.Row i s
      → keeps.Row i (bulk_create db codec ms s).1
  unfolding bulk_create
  bulk_create-keeps i [] s k = k
  bulk_create-keeps i (m ∷ ms) s k =
      keeps-bind (keeps.Row i) (pure (message_rows codec (m ∷ ms)))
        (λ rows. wrapped db_error (db.insert_messages rows)) s k
        (λ rows u k'. keeps.insert_messages i rows u k')

  pub found_seen :
      (hash : Bytes) (i : Interchange) (s : S)
      → (found_interchange db codec outside hash s).0 ≡ ok (some i)
      → (i.content_hash ≡ hash) × keeps.Row i (found_interchange db codec outside hash s).1
  unfolding find_by_content_hash
  found_seen hash i s e = elim (Result-cases (db.select_interchange_by_hash hash s).0) [
    | inr (x, f) ↦ cc (rw (f, find_by_content_hash) at e)
    | inl (j, f) ↦
        let same : j ≡ i = eq_of-some (ok-injective (rw (f, find_by_content_hash) at e)) in
        rw (f, find_by_content_hash) (keeps.selected hash i s (f ∙ ap ok same))
  ]

  -- What `Durable` asks for holds of the repositories.
  unfoldable pub repositories-Durable : Durable (repository_ports db codec outside) parser_version
  unfolding create_interchange find_by_content_hash create_version
  repositories-Durable = record {
    Stored = keeps.Row;
    created =
        λ i s u e. keeps.inserted i s u (wrap-ok create_error (db.insert_interchange i s).0 u e);
    lasts = λ i. record {
      stamp = λ s k. keeps.stamps i s k;
      create_version = λ v s k. keeps.insert_version i (row_of_version v) s k;
      upsert = λ b s k. upsert-keeps i b s k;
      bulk_create = λ ms s k. bulk_create-keeps i ms s k;
      commit = λ s k. keeps.commits i s k;
      rollback = λ s k. keeps.rolls_back i s k;
      publish = λ es s k. keeps.publishes i es s k;
    };
    seen = λ hash i s e. found_seen hash i s e;
    finds = λ i s k.
        let (j, found, id, status) = keeps.finds i s k in
        (j, rw (found, find_by_content_hash) refl, id, status);
  }

  -- With the repositories behind the ports, sending a file again that was answered as completed is
  -- answered with the same interchange, still completed, with no messages counted and no events, and
  -- all it does to the database is one SELECT of the interchange by its content hash.
  pub repositories-again :
      (file : Bytes) (s : S) (r : Ports.IngestResult) (t : S)
      → ingest_file (repository_ports db codec outside) parser_version file s ≡ some (replied r, t)
      → r.status ≡ completed
      → ingest_file (repository_ports db codec outside) parser_version file t
        ≡ some (replied (known r), (db.select_interchange_by_hash (outside.sha256_hex file) t).1)
  repositories-again file s r t e done =
      ingest_file-again (repository_ports db codec outside) parser_version repositories-Durable file
        s r t e done
      ∙ ap (λ u. some (replied (known r), u))
          (found_state db codec outside (outside.sha256_hex file) t)
