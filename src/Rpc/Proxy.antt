-- ===== src/Rpc/Proxy.antt =====
-- The cache of connections to other nodes, over every interleaving of getProxyClient calls: the check
-- under the read lock may be as old as it likes when the write lock is taken.
use secureorder.Prelude.{
  true, false, List, [], ◌∷◌, ◌++◌, Option, none, some, ◌≡◌, refl, ap, map, Bool-cases,
  Option-cases, inl, inr, bytes_eq,
}
use secureorder.Prelude.{Result, ok, err}
use secureorder.Error.{Bytes, GoError}
use secureorder.Rpc.{
  AddrMap, lookup, delete, put, Cluster, Server, new_server, get_proxy_client, keep_conn, dial_once,
  close_server,
}

delete_absent :
    {V : Type 0} (addr : Bytes) (m : AddrMap V) → lookup addr m ≡ none → delete addr m ≡ m
unfolding lookup delete
delete_absent addr [] h = refl
delete_absent addr ((key, v) ∷ m) h = elim (Bool-cases (bytes_eq key addr)) [
  | inl same ↦ cc (rw same at h)
  | inr other ↦ rw other (ap (λ l. (key, v) ∷ l) (delete_absent addr m (rw other at h)))
]

-- Each address stands once in the map.
abbrev pub HasDistinctKeys : {V : Type 0} → AddrMap V → Type 0
HasDistinctKeys [] = Unit
HasDistinctKeys ((key, v) ∷ m) = (lookup key m ≡ none) × HasDistinctKeys m

module _ {V W : Type 0} (f : V → W) where
  abbrev pub map_values : AddrMap V → AddrMap W
  map_values [] = []
  map_values ((key, v) ∷ m) = (key, f v) ∷ map_values m

  lookup-map_values :
      (addr : Bytes) (m : AddrMap V) → lookup addr (map_values m) ≡ none → lookup addr m ≡ none
  unfolding lookup
  lookup-map_values addr [] h = refl
  lookup-map_values addr ((key, v) ∷ m) h = elim (Bool-cases (bytes_eq key addr)) [
    | inl same ↦ cc (rw same at h)
    | inr other ↦ rw other (lookup-map_values addr m (rw other at h))
  ]

module _ (cl : Cluster) where
  open cl use {World, Client, Conn, dial, new_client}

  -- The cache and the connections go together, no connection was lost, and none was dialed twice.
  pub record IsTracked (s : Server cl) : Type 0 where
    pub cached : s.proxy_cache ≡ map_values new_client s.conns
    pub none_lost : s.dialed ≡ map (λ c. c.1) s.conns
    pub distinct : HasDistinctKeys s.conns
    pub all_open : s.closed ≡ []
    pub running : s.done ≡ false

  keep_conn-IsTracked :
      (addr : Bytes) (r : Result GoError Conn × World) (s : Server cl)
      → lookup addr s.proxy_cache ≡ none
      → IsTracked s
      → IsTracked (keep_conn cl addr r s).1
  unfolding get_proxy_client put
  keep_conn-IsTracked addr (err e, w) s absent t = t
  keep_conn-IsTracked addr (ok conn, w) s absent t =
      let absent' = lookup-map_values new_client addr s.conns (rw t.cached at absent) in
      record {
        cached =
            rw
              (
                delete_absent addr s.proxy_cache absent,
                delete_absent addr s.conns absent',
                t.cached,
              )
              refl;
        none_lost = rw (delete_absent addr s.conns absent', t.none_lost) refl;
        distinct = rw (delete_absent addr s.conns absent') (absent', t.distinct);
        all_open = t.all_open;
        running = t.running;
      }

  dial_once-IsTracked :
      (addr : Bytes) (found : Option Client) (s : Server cl) (w : World)
      → lookup addr s.proxy_cache ≡ found
      → IsTracked s
      → IsTracked (dial_once cl addr found s w).1
  unfolding get_proxy_client
  dial_once-IsTracked addr (some client) s w h t = t
  dial_once-IsTracked addr none s w h t = keep_conn-IsTracked addr (dial addr w) s h t

  get_proxy_client-IsTracked :
      (addr : Bytes) (seen : AddrMap Client) (s : Server cl) (w : World)
      → IsTracked s
      → IsTracked (get_proxy_client cl addr seen s w).1
  unfolding get_proxy_client
  get_proxy_client-IsTracked addr seen s w t = elim (Option-cases (lookup addr seen)) [
    | inl absent ↦
        rw (absent, get_proxy_client)
          (dial_once-IsTracked addr (lookup addr s.proxy_cache) s w refl t)
    | inr (client, found) ↦ rw (found, get_proxy_client) t
  ]

  -- One call: its address, the cache as its read lock finds it, and the state of the cluster.
  pub record Lookup : Type 0 where
    pub address : Bytes
    pub seen : AddrMap Client
    pub met : World

  unfoldable pub get_all : List Lookup → Server cl → Server cl
  get_all [] s = s
  get_all (l ∷ ls) s = get_all ls (get_proxy_client cl l.address l.seen s l.met).1

  get_all_kept : (ls : List Lookup) (s : Server cl) → IsTracked s → IsTracked (get_all ls s)
  unfolding get_all
  get_all_kept [] s t = t
  get_all_kept (l ∷ ls) s t =
      get_all_kept ls _ (get_proxy_client-IsTracked l.address l.seen s l.met t)

  -- However many calls race for however many addresses, and however old a cache their first check
  -- saw, no address has two connections, and every cached client is that of the connection kept for
  -- its address; the first Close closes exactly the connections that were ever opened, and a second
  -- one panics.
  pub get_all-Tracked :
      (ls : List Lookup)
      → HasDistinctKeys (get_all ls (new_server cl)).conns
        × ((get_all ls (new_server cl)).proxy_cache
            ≡ map_values new_client (get_all ls (new_server cl)).conns)
        × (s : Server cl) × (close_server cl (get_all ls (new_server cl)) ≡ some s)
        × (s.closed ≡ (get_all ls (new_server cl)).dialed)
        × (close_server cl s ≡ none)
  unfolding close_server
  get_all-Tracked ls =
      let t = get_all_kept ls (new_server cl) fresh in
      let end = get_all ls (new_server cl) in
      (
        t.distinct,
        t.cached,
        record end { done = true; closed = end.closed ++ map (λ c. c.1) end.conns },
        rw t.running refl,
        rw (t.all_open, t.none_lost) refl,
        refl,
      )
    where
      fresh : IsTracked (new_server cl)
      fresh =
          unfold new_server in
          record { cached = refl; none_lost = refl; distinct = _; all_open = refl; running = refl }
