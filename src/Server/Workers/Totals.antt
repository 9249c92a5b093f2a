-- ===== src/Server/Workers/Totals.antt =====
-- The totals of `/api/workers` are the sums over the workers listed.
use kle_ng_api.Prelude.{
  ℕ, ◌+◌, ◌≡◌, refl, ◌∙◌, List, [], ◌∷◌, ◌++◌, map, append_assoc, append-nil, sym, length, arith,
  pos_part, neg_part,
}
use kle_ng_api.Server.Http.{WorkerDetail}
use kle_ng_api.Server.Queue.{ServerInfo}
use kle_ng_api.Server.Workers.{worker_detail, sum_workers, workers_response}

unfoldable pub capacities : List WorkerDetail → ℕ
capacities [] = 0
capacities (d ∷ ds) = d.concurrency + capacities ds

unfoldable pub actives : List WorkerDetail → ℕ
actives [] = 0
actives (d ∷ ds) = d.active_tasks + actives ds

-- the idle capacities of the workers, above zero and below it
unfoldable pub idles : List WorkerDetail → ℕ × ℕ
idles [] = (0, 0)
idles (d ∷ ds) =
    let (up, down) = idles ds in (pos_part d.idle_capacity + up, neg_part d.idle_capacity + down)

triple_path :
    {a b c d : ℕ} {x y : List WorkerDetail}
    → a ≡ b
    → c ≡ d
    → x ≡ y
    → ◌≡◌ {A = ℕ × ℕ × List WorkerDetail} (a, c, x) (b, d, y)
triple_path {b = b} {d = d} p q r = rw (p, q, r) refl

sum_workers_lem :
    (servers : List ServerInfo) (c a : ℕ) (done : List WorkerDetail)
    → sum_workers servers c a done ≡ (
      c + capacities (map worker_detail servers),
      a + actives (map worker_detail servers),
      done ++ map worker_detail servers,
    )
unfolding sum_workers capacities actives worker_detail
sum_workers_lem [] c a done = ground (arith, append-nil done)
sum_workers_lem (s ∷ servers) c a done =
    sum_workers_lem servers (c + s.concurrency) (a + length s.active_workers)
      (done ++ worker_detail s ∷ [])
    ∙ triple_path (omega arith) (omega arith)
        (append_assoc done (worker_detail s ∷ []) (map worker_detail servers))

idles_lem :
    (servers : List ServerInfo)
    → let ds = map worker_detail servers in (idles ds).0 + actives ds ≡ (idles ds).1 + capacities ds
unfolding idles capacities actives worker_detail
idles_lem [] = refl
idles_lem (s ∷ servers) = ground (arith, idles_lem servers)

length-map : (servers : List ServerInfo) → length (map worker_detail servers) ≡ length servers
length-map [] = refl
length-map (s ∷ servers) = omega (arith, length-map servers)

-- The answer of `/api/workers` lists every worker process in the order of the inspector, and its
-- four numbers are what the list adds up to: the count of the entries, their capacities, their
-- active tasks, and their idle capacities, which may be negative.
pub workers_response_totals :
    (servers : List ServerInfo)
    → let r = workers_response servers in
      (r.workers ≡ map worker_detail servers)
      × (r.worker_processes ≡ length r.workers)
      × (r.total_capacity ≡ capacities r.workers)
      × (r.active_tasks ≡ actives r.workers)
      × (pos_part r.idle_capacity + (idles r.workers).1
          ≡ neg_part r.idle_capacity + (idles r.workers).0)
unfolding workers_response
workers_response_totals servers =
    rw (sum_workers_lem servers 0 0 [])
      (refl, sym (length-map servers), omega arith, omega arith, ground (arith, idles_lem servers))
