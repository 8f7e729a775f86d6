-- ===== src/Witnesses/Transfer.antt =====
-- The theorems about transfers, at concrete inputs.
use clipgauge.Common.{
  ℕ, ◌≡◌, refl, inl, inr, String, false, none, some, List, [], ◌∷◌, ok, ◌==◌, if◌then◌else◌, arith,
}
use clipgauge.Text.Lower.{same_lower_refl}
use clipgauge.Transfer.{
  Stream, Response, ServerReply, Network, Wanted, download_stream, download_verified,
}
use clipgauge.Transfer.Opening.{IsSettled, AgreeUpTo, download_stream-IsSettled}
use clipgauge.Transfer.Verified.{IsSafe, download_verified-IsSafe}
use clipgauge.Transfer.Resuming.{download_verified-resumed}

abbrev pub zero_digest : String
zero_digest = "0000000000000000000000000000000000000000000000000000000000000000"

abbrev pub zero_hash : List ℕ → String
zero_hash b = zero_digest

abbrev want : Wanted
want = record { sha256 = zero_digest; max_bytes = 10; size = some 3 }

abbrev busy : Response
busy = record { status = 503; announced = 0; body = Stream.finished }

abbrev the_rest : Response
the_rest = record {
  status = 206;
  announced = 2;
  body = Stream.chunk (8 ∷ []) false (Stream.chunk (9 ∷ []) false Stream.finished);
}

-- The first attempt meets a busy server.
abbrev pub network : Network
network = record {
  cancelled_at_start = false;
  cancelled_before = λ _ _. false;
  reply = λ request offset attempt. ServerReply.answers (if attempt == 0 then busy else the_rest);
}

download_stream-IsSettled_example :
    IsSettled (download_stream network 0 1)
    × ((other : Network)
        → AgreeUpTo 0 4 network other 0 1
        → download_stream other 0 1 ≡ download_stream network 0 1)
download_stream-IsSettled_example = download_stream-IsSettled network 0 1

download_verified-IsSafe_example : IsSafe zero_hash want (some (1 ∷ [])) (
    download_verified zero_hash want network
      (record { part = some (7 ∷ []); destination = some (1 ∷ []) }))
download_verified-IsSafe_example =
    download_verified-IsSafe zero_hash want network
      (record { part = some (7 ∷ []); destination = some (1 ∷ []) }) refl

download_verified-resumed_example :
    download_verified zero_hash want network (record { part = some (7 ∷ []); destination = none })
    ≡ record { files = record { part = none; destination = some (7 ∷ 8 ∷ 9 ∷ []) }; result = ok tt }
download_verified-resumed_example =
    download_verified-resumed zero_hash want network none (7 ∷ []) (8 ∷ 9 ∷ []) the_rest refl
      (record { right_hash = same_lower_refl zero_digest; right_size = refl; fits = omega arith })
      refl (refl, inr ((busy, refl, refl), (refl, inl (refl, refl)))) refl refl
      (refl, 9 ∷ [], refl, (refl, [], refl, refl))
