-- ===== src/Examples/Links.antt =====
-- A CC-CC side with an outbound and an inbound link, and a run of it.
use cc2obp.Common.{
  ℕ, zero, suc, ◌+◌, ◌<◌, ◌≡◌, refl, Bool, true, false, ◌&&◌, none, some, List, [], ◌∷◌, ◌++◌,
  arith, ◌==◌, take, drop, replicate, All,
}
use cc2obp.Config.{LinkConfig, inbound, no_link, link_at}
use cc2obp.Cccc.Const.{codes}
use cc2obp.Cccc.Text.{strtoul, atoi}
use cc2obp.Cccc.Lines.Chunks.{feed_all, feed_bytes-lines}
use cc2obp.Cccc.Signals.{build_answer, build_bon}
use cc2obp.Cccc.Link.{
  CcLink, Env, Action, lst_up, lst_down, new_link, tcp_send, udp_sendto, tr_bon, tr_voice,
  tr_link_up, tr_link_down, build_voice, cccc_send_bon, cccc_send_voice,
}
use cc2obp.Cccc.Connect.{received, on_link_tcp_readable}
use cc2obp.Cccc.Mux.{CcMux, put, cccc_mux_new, no_pending}
use cc2obp.Cccc.Pending.{
  match_question, is_asked_for, establish, handle_question_complete, pending_on_line, free_slot,
}
use cc2obp.Cccc.Traffic.{is_some, on_voice_readable, cccc_mux_start}
use cc2obp.Cccc.Steps.{
  Input, connections, pending_readable, connect_writable, link_readable, react, step, run,
}
use cc2obp.Cccc.Sound.{IsSound, tell_all, dials}
use cc2obp.Cccc.Sound.Lookup.{holds}
use cc2obp.Cccc.Sound.Table.{IsUnique, up_at}
use cc2obp.Cccc.Sound.Life.{IsSameTable, life, life-IsSound, life-distinct, life-told}
use cc2obp.Cccc.Silence.{keepalives, keepalives-silent}
use cc2obp.Cccc.Arrival.{cccc_send_bon-arrives}
use cc2obp.Cccc.Voice.{cccc_send_voice-arrives}
use cc2obp.Cccc.Refusal.{answer, IsRefused, handle_question_complete-IsRefused}
use cc2obp.Examples.Data.{two_links}

abbrev caller : LinkConfig
caller = record no_link {
  enabled = true;
  cc_lid = 7;
  cc_remote_ip = codes "192.0.2.1";
  cc_remote_port = some 42421;
  cc_remote_voice_port = 42422;
}

abbrev called : LinkConfig
called = record caller { cc_role = inbound; cc_lid = 8; cc_remote_ip = codes "192.0.2.2" }

abbrev site : Env
site = record {
  cfg = record two_links { link = caller ∷ called ∷ [] };
  now = 100000000000;
  connect = λ i. some (20 + i);
}

-- The Question of the remote end, up to its last field.
abbrev question : List ℕ
question = codes "2a\n8 \nchannel\nsite\nServer Inbound\nmac\nrev\nos\n"

-- The outbound link comes up, and then the inbound one, with a Question in two pieces.
abbrev events : List (Env × Input)
events =
    (site, connect_writable 0 true (31 ∷ []))
    ∷ (
      site,
      link_readable 0
          (received (build_answer (codes "5 6") (codes "far") (codes "os") (codes "v1"))),
    )
    ∷ (site, connections ((30, codes "192.0.2.2") ∷ []))
    ∷ (site, pending_readable 0 (codes "5 6") (received (take 9 question)))
    ∷ (site, pending_readable 0 (codes "5 6") (received (drop 9 question)))
    ∷ []

abbrev after : CcMux × List Action
after = life site (some 3) (some 4) (some 5) events

-- Both links are up at the end.
both_up : (up_at after.0 0 && up_at after.0 1) ≡ true
unfolding life run step react cccc_mux_start cccc_mux_new free_slot pending_on_line
    handle_question_complete match_question atoi build_answer strtoul establish
both_up = refl

own_table : All (λ ei. IsSameTable site ei.0) events
own_table = let t : IsSameTable site site = (refl, λ i. refl) in (t, (t, (t, (t, (t, tt)))))

life-IsSound_example : IsSound true (after.0.links 0)
life-IsSound_example = life-IsSound site (some 3) (some 4) (some 5) events own_table 0 (omega arith)

life-distinct_example : ((after.0.links 0).sync_source == (after.0.links 1).sync_source) ≡ false
unfolding life run step react cccc_mux_start cccc_mux_new free_slot pending_on_line
    handle_question_complete match_question atoi build_answer strtoul establish
life-distinct_example =
    life-distinct site (some 3) (some 4) (some 5) events own_table 0 1 (omega arith) (omega arith)
      refl refl

life-told_example : tell_all 1 false after.1 ≡ some (up_at after.0 1)
life-told_example = life-told site (some 3) (some 4) (some 5) events own_table 1

-- With one line more behind the Question, in the same bytes, the link that is up is torn down and comes up again,
-- with no connection.
abbrev too_much : CcMux × List Action
too_much = life site (some 3) (some 4) (some 5) (
    (site, connections ((30, codes "192.0.2.2") ∷ []))
    ∷ (site, pending_readable 0 (codes "5 6") (received (question ++ codes "\n")))
    ∷ [])

abbrev told_of_links : List Action → List ℕ
told_of_links [] = []
told_of_links (tr_link_up i ∷ more) = 1 ∷ told_of_links more
told_of_links (tr_link_down i ∷ more) = 0 ∷ told_of_links more
told_of_links (_ ∷ more) = told_of_links more

question_again :
    (told_of_links too_much.1 ≡ 1 ∷ 0 ∷ 1 ∷ [])
    × ((too_much.0.links 1).fd ≡ none)
    × (up_at too_much.0 1 ≡ true)
unfolding life run step react cccc_mux_start cccc_mux_new free_slot pending_on_line
    handle_question_complete match_question atoi build_answer strtoul establish
question_again = (refl, refl, refl)

abbrev up_link : CcLink
up_link = record new_link {
  state = lst_up;
  active = true;
  fd = some 20;
  keepalive_timer = some 110000000000;
  sync_source = 42;
  has_sync_source = true;
  last_keepalive_recv = 100000000000;
}

abbrev four_times : List ℕ
four_times = 0 ∷ 1 ∷ 0 ∷ 2 ∷ []

keepalives-silent_example :
    ((keepalives site 0 four_times up_link).0.state ≡ lst_down)
    × (tell_all 0 true (keepalives site 0 four_times up_link).1 ≡ some false)
    × (is_some (keepalives site 0 four_times up_link).0.reconnect_timer
        ≡ (dials site 0 && (keepalives site 0 four_times up_link).0.active))
keepalives-silent_example =
    keepalives-silent site 0 four_times 110000000000 up_link (refl, refl, refl, refl, refl) refl
      refl (omega arith) (omega arith)

abbrev texts : List (List ℕ × Bool)
texts = (codes "AMBE", true) ∷ (codes "60", false) ∷ ([], false) ∷ []

abbrev pieces : List (List ℕ)
pieces = codes "AM" ∷ codes "BE\r" ∷ [] ∷ codes "\n60\n\n" ∷ []

abbrev keep_line : List ℕ → List (List ℕ) → List (List ℕ)
keep_line l ls = l ∷ ls

feed_bytes-lines_example :
    feed_all 16 keep_line pieces ([], []) ≡ ([], [] ∷ codes "60" ∷ codes "AMBE" ∷ [])
feed_bytes-lines_example =
    feed_bytes-lines 16 keep_line pieces texts []
      (
        ((refl, (refl, (refl, (refl, tt)))), omega arith),
        (((refl, (refl, tt)), omega arith), ((tt, omega arith), tt)),
      )
      refl

cccc_send_bon-arrives_example :
    let bytes = build_bon 7 5 3100001 310000 8 3100 71 in
    (cccc_send_bon site 0 5 3100001 310000 8 3100 71 up_link
      ≡ (up_link, tcp_send (some 20) bytes ∷ []))
    × (on_link_tcp_readable site 1 (received bytes) up_link ≡ (
      up_link,
      tr_bon 1 (record { radio = 3100001; peer = 310000; src_lid = 8; tgid = 3100; call_type = 71 })
          ∷ [],
    ))
cccc_send_bon-arrives_example =
    cccc_send_bon-arrives site site 0 1 up_link up_link 5 3100001 310000 8 3100 71 (omega arith)
      (omega arith) (omega arith) (omega arith) (omega arith) (omega arith) refl (λ e. ground arith)
      refl refl refl

abbrev one_held : CcMux
one_held = record {
  voice_fd = some 3;
  trial_fd = some 4;
  listen_fd = some 5;
  links = put (λ _. new_link) 0 up_link;
  pending = λ _. record no_pending {
    in_use = true;
    fd = some 30;
    src_ip = codes "192.0.2.2";
    qlines = codes "2a" ∷ codes "8 " ∷ [];
  };
  user_ctr = λ _. 0;
}

one_held-IsUnique : IsUnique 2 one_held
one_held-IsUnique i j si sj hi hj same = ground arith

abbrev half_second : List ℕ
half_second = replicate 21 17

cccc_send_voice-arrives_example :
    (cccc_send_voice site 1 9 480 true half_second up_link ≡ (
      up_link,
      udp_sendto (codes "192.0.2.2") 42422 (build_voice 9 480 true 42 half_second) ∷ [],
    ))
    × (on_voice_readable site
          (build_voice 9 480 true 42 half_second)
          (codes "192.0.2.1")
          42422
          one_held
        ≡ (one_held, tr_voice 0 9 480 true half_second ∷ []))
cccc_send_voice-arrives_example =
    cccc_send_voice-arrives site site 1 0 up_link one_held 9 480 true half_second 42422 refl refl
      (omega arith) (omega arith) (omega arith) one_held-IsUnique (omega arith) refl

-- The first link holds the sync source, and the second is asked for.
taken :
    (i : ℕ)
    → i < 2
    → is_asked_for (codes "192.0.2.2") (atoi (codes "8 ")) (link_at site.cfg i) ≡ true
    → (j : ℕ) × (j < 2) × (holds one_held (strtoul 16 (codes "2a")) j ≡ true) × ((j == i) ≡ false)
unfolding strtoul
taken zero small asked = absurd (ground arith)
taken (suc zero) small asked = (0, omega arith, refl, refl)
taken (suc (suc i)) small asked = absurd (omega arith)

handle_question_complete-IsRefused_example :
    IsRefused site (codes "5 6") 3 one_held (answer site (codes "5 6") 3 one_held)
handle_question_complete-IsRefused_example =
    handle_question_complete-IsRefused site (codes "5 6") 3 one_held one_held-IsUnique taken
