-- ===== src/Mirror/Writers.antt =====
-- vector_lake/db_store.py: the writers of the full-text table. Each changes it and the mirror in one
-- transaction. The row id that the state table records for a node is an argument, and so is the one
-- that SQLite gives to a new row.
use vector_lake.Prelude.{
  ℕ, Bool, ◌&&◌, not, Option, none, some, List, [], ◌∷◌, ◌++◌, ◌==◌, if◌then◌else◌,
}
use vector_lake.Prelude.Sql.{select}
use vector_lake.Mirror.{upsert, delete, FtsRow, Mirror, enqueue_tantivy_intent, reset_tantivy_epoch}

-- DELETE FROM wiki_search_index, by the recorded row id or by the key
abbrev pub is_deleted : Option ℕ → ℕ → FtsRow → Bool
is_deleted (some rowid) node_key x = x.rowid == rowid && x.node_key == node_key
is_deleted none node_key x = x.node_key == node_key

unfoldable pub delete_rows : Option ℕ → ℕ → List FtsRow → List FtsRow
delete_rows recorded node_key fts = select (λ x. not (is_deleted recorded node_key x)) fts

-- `replace` is that `replace_existing` is not False.
unfoldable pub upsert_search_index : Bool → Option ℕ → FtsRow → Mirror → Mirror
unfolding delete_rows
upsert_search_index replace recorded row m =
    let kept = if replace then delete_rows recorded row.node_key m.fts else m.fts in
    enqueue_tantivy_intent row.node_key upsert (some row.rowid)
      (record m { fts = kept ++ row ∷ [] })

-- The same statements are in `delete_node_cascade`.
unfoldable pub delete_search_index : Option ℕ → ℕ → Mirror → Mirror
unfolding delete_rows
delete_search_index recorded node_key m =
    enqueue_tantivy_intent node_key delete none
      (record m { fts = delete_rows recorded node_key m.fts })

unfoldable pub clear_search_index : Mirror → Mirror
clear_search_index m = reset_tantivy_epoch (record m { fts = [] })
