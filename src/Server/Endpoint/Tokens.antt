-- ===== src/Server/Endpoint/Tokens.antt =====
-- No library outlives its client: the tokens of a connection, from the import to its end, whatever the
-- order in which imports, finalizations and the disconnect come.
use robotframework_jsonrpcre.Base.{
  Bool, true, false, Option, none, some, List, [], ◌∷◌, String, ◌≡◌, refl, sym, ◌∙◌, inl, inr,
  arith, ◌||◌, Bool-cases, Bool-apart, eq_iff,
}
use robotframework_jsonrpcre.Base.Result.{ok, err, Exception}
use robotframework_jsonrpcre.Base.Dict.{contains, add, discard, contains-add, contains-discard}
use robotframework_jsonrpcre.Protocol.{
  InitializeParams, SetLogLevelParams, ImportLibraryParams, LibraryDefinition,
}
use robotframework_jsonrpcre.Server.Endpoint.{
  Endpoint, init, set_level, initialize, initialized, set_log_level, shutdown, Import, begin_import,
  end_import, end_finalize, begin_finalize_all, end_finalize_turn,
}
use robotframework_jsonrpcre.Server.Endpoint.Guards.{begin_import-Passed}

-- The endpoint and, of its tokens: those whose import waits for the runner, those under which the
-- keyword store holds a library, those that a handler finalizes after the disconnect, and those that
-- `finalize_all` has still to go through.
pub record Connection : Type 0 where
  pub endpoint : Endpoint
  pub importing : List String
  pub held : List String
  pub finalizing : List String
  pub turns : List String

abbrev pub connected : List String → String → Connection
connected libraries id = record {
  endpoint = init libraries id;
  importing = [];
  held = [];
  finalizing = [];
  turns = [];
}

-- A finalization takes the library out of the store, as `_robot_finalize_library` does; an import
-- that fails has left none there.
pub data Step (c : Connection) : Connection → Type 0 where
  greeted :
      (version : String) (params : InitializeParams)
      → Step c (record c { endpoint = (initialize version params c.endpoint).1 })
  confirmed : Step c (record c { endpoint = initialized c.endpoint })
  level_set :
      (params : SetLogLevelParams)
      → Step c (record c { endpoint = set_log_level params c.endpoint })
  shut_down : Step c (record c { endpoint = shutdown c.endpoint })
  asked :
      (params : ImportLibraryParams) (r : Import × Endpoint)
      → begin_import params c.endpoint ≡ ok r
      → Step c (record c { endpoint = r.1; importing = add r.0.token c.importing })
  stored : (t : String) → contains t c.importing ≡ true → Step c (record c { held = add t c.held })
  import_ended :
      (t : String) (definition : LibraryDefinition)
      → c.endpoint.disconnected ≡ false
      → Step c (record c {
        endpoint = (end_import t (ok definition) c.endpoint).1;
        importing = discard t c.importing;
      })
  import_ended_late :
      (t : String) (definition : LibraryDefinition)
      → c.endpoint.disconnected ≡ true
      → Step c (record c {
        endpoint = (end_import t (ok definition) c.endpoint).1;
        importing = discard t c.importing;
        finalizing = add t c.finalizing;
      })
  import_failed :
      (t : String) (x : Exception)
      → contains t c.held ≡ false
      → Step c (record c {
        endpoint = (end_import t (err x) c.endpoint).1;
        importing = discard t c.importing;
      })
  finalized :
      (t : String)
      → Step c (record c { held = discard t c.held; finalizing = discard t c.finalizing })
  client_finalized :
      (t : String)
      → Step c (record c { endpoint = (end_finalize t none c.endpoint).1; held = discard t c.held })
  left : Step c (record c {
    endpoint = (begin_finalize_all c.endpoint).1;
    turns = (begin_finalize_all c.endpoint).0;
  })
  turn :
      (t : String) (ts : List String)
      → c.turns ≡ t ∷ ts
      → Step c (record c {
        endpoint = end_finalize_turn t c.endpoint;
        held = discard t c.held;
        turns = ts;
      })

pub data Reach (c : Connection) : Connection → Type 0 where
  here : Reach c c
  step : {d e : Connection} → Reach c d → Step d e → Reach c e

-- Every library that is held will be finalized by someone.
pub record Owned (c : Connection) : Type 0 where
  pub owned :
      (t : String)
      → contains t c.held ≡ true
      → (contains t c.importing
          || (contains t c.endpoint.imported_tokens || contains t c.finalizing))
        ≡ true
  pub in_turn :
      c.endpoint.disconnected ≡ true
      → (t : String) → contains t c.endpoint.imported_tokens ≡ true
      → contains t c.turns ≡ true

end_import-open :
    (t : String) (x : LibraryDefinition) (e : Endpoint)
    → e.disconnected ≡ false
    → (end_import t (ok x) e).1 ≡ record e { imported_tokens = add t e.imported_tokens }
unfolding end_import
end_import-open t x e h = rw h refl

end_import-late :
    (t : String) (x : LibraryDefinition) (e : Endpoint)
    → e.disconnected ≡ true
    → (end_import t (ok x) e).1 ≡ e
unfolding end_import
end_import-late t x e h = rw h refl

level-Owned :
    (level : Option String) (c : Connection)
    → Owned c
    → Owned (record c {
      endpoint = set_level level (record (c.endpoint) { initialize_received = true });
    })
level-Owned none c o = record { owned = o.owned; in_turn = o.in_turn }
level-Owned (some level) c o = record { owned = o.owned; in_turn = o.in_turn }

Step-Owned : (c d : Connection) → Step c d → Owned c → Owned d
unfolding end_import end_finalize contains
Step-Owned c d (greeted version params) o = level-Owned params.initial_log_level c o
Step-Owned c d confirmed o = record { owned = o.owned; in_turn = o.in_turn }
Step-Owned c d (level_set params) o = record { owned = o.owned; in_turn = o.in_turn }
Step-Owned c d shut_down o = record { owned = o.owned; in_turn = o.in_turn }
Step-Owned c d (asked params r h) o = rw ((begin_import-Passed params c.endpoint r h).4) (record {
  owned = λ s k. ground (arith, contains-add r.0.token s c.importing, o.owned s);
  in_turn = o.in_turn;
})
Step-Owned c d (stored t h) o = record {
  owned = λ s k. ground (arith, eq_iff t s, contains-add t s c.held, o.owned s);
  in_turn = o.in_turn;
}
Step-Owned c d (import_ended t x h) o =
    let e = end_import-open t x c.endpoint h in
    record {
      owned = λ s k. simp e (
          ground (
            arith,
            eq_iff t s,
            contains-discard t s c.importing,
            contains-add t s c.endpoint.imported_tokens,
            o.owned s,
          ));
      in_turn = λ l s k. absurd (Bool-apart (sym (simp e at l) ∙ h));
    }
Step-Owned c d (import_ended_late t x h) o =
    let e = end_import-late t x c.endpoint h in
    record {
      owned = λ s k. simp e (
          ground (
            arith,
            eq_iff t s,
            contains-discard t s c.importing,
            contains-add t s c.finalizing,
            o.owned s,
          ));
      in_turn = λ l s k. o.in_turn h s (simp e at k);
    }
Step-Owned c d (import_failed t x h) o = record {
  owned = λ s k. ground (arith, eq_iff t s, contains-discard t s c.importing, o.owned s);
  in_turn = o.in_turn;
}
Step-Owned c d (finalized t) o = record {
  owned = λ s k.
      ground (arith, contains-discard t s c.held, contains-discard t s c.finalizing, o.owned s);
  in_turn = o.in_turn;
}
Step-Owned c d (client_finalized t) o = record {
  owned = λ s k. ground (
    arith,
    contains-discard t s c.held,
    contains-discard t s c.endpoint.imported_tokens,
    o.owned s,
  );
  in_turn = λ l s k. ground (arith, contains-discard t s c.endpoint.imported_tokens, o.in_turn l s);
}
Step-Owned c d left o = record { owned = o.owned; in_turn = λ e s k. k }
Step-Owned c d (turn t ts h) o = record {
  owned = λ s k. ground (
    arith,
    contains-discard t s c.held,
    contains-discard t s c.endpoint.imported_tokens,
    o.owned s,
  );
  in_turn = λ l s k.
      (let i : contains s (t ∷ ts) ≡ true =
          rw h at
            (o.in_turn l s (ground (arith, contains-discard t s c.endpoint.imported_tokens))) in
        ground (arith, eq_iff t s, contains-discard t s c.endpoint.imported_tokens));
}

Reach-Owned : (c d : Connection) → Reach c d → Owned c → Owned d
Reach-Owned c d here o = o
Reach-Owned c d (step r s) o = Step-Owned _ d s (Reach-Owned c _ r o)

connected-Owned : (libraries : List String) (id : String) → Owned (connected libraries id)
unfolding contains
connected-Owned libraries id = record {
  owned = λ t k. absurd (Bool-apart (sym k));
  in_turn = λ e t k. absurd (Bool-apart (sym k));
}

only : (b : Bool) → (false || (b || false)) ≡ true → b ≡ true
only true h = refl
only false h = h

-- The connection is over: `finalize_all` has gone through its tokens, and no handler is left that
-- waits for an import or finalizes a token itself. Then the keyword store holds no library of it,
-- provided that each finalization took its library out of the store and that no import that failed
-- left one there.
pub no_library_left :
    (libraries : List String) (id : String) (c : Connection)
    → Reach (connected libraries id) c
    → c.endpoint.disconnected ≡ true
    → c.turns ≡ []
    → c.importing ≡ []
    → c.finalizing ≡ []
    → (t : String) → contains t c.held ≡ false
unfolding contains
no_library_left libraries id c r gone turns importing finalizing t =
    let o = Reach-Owned _ c r (connected-Owned libraries id) in
    elim (Bool-cases (contains t c.held)) [
      | inl k ↦
          let i = rw (importing, finalizing) at (o.owned t k) in
          absurd (Bool-apart (sym (rw turns at (o.in_turn gone t (only _ i)))))
      | inr f ↦ f
    ]
