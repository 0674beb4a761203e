-- ===== src/Node/Publish/Tests.antt =====
-- A run of a publication that another node hears.
use openclaw_p2p.Node.Publish.Heard.{handle_envelope-publish_task}
use openclaw_p2p.Store.Tasks.Merge.{merge_task}
use openclaw_p2p.Store.Tasks.{task_key}
use openclaw_p2p.Error.{nil}
use openclaw_p2p.Node.Tests.{
  publish_test, input, draft_inputs, ready, publish_inputs, inputs, toy_node,
}
use openclaw_p2p.Sae.Tests.{signed_task, json_toy}
use openclaw_p2p.Node.Inbound.{handle_envelope}
use openclaw_p2p.GoMap.{get}
use openclaw_p2p.Node.State.{Node, check_rate}
use openclaw_p2p.Store.Tests.{empty_store}
use openclaw_p2p.Prelude.{refl, ◌==◌, true, if◌then◌else◌, ◌≡◌}

abbrev listener : Node json_toy
listener = toy_node json_toy tt true

under_rate : (check_rate json_toy 10 signed_task true listener).0 ≡ nil
unfolding check_rate
under_rate = refl

handle_envelope-publish_task_example :
    get "k" (handle_envelope json_toy inputs signed_task listener).1.store.tasks ≡ (
      if task_key signed_task.origin signed_task.task_id == "k"
      then merge_task 11 signed_task (get "k" empty_store.tasks)
      else get "k" empty_store.tasks)
handle_envelope-publish_task_example =
    handle_envelope-publish_task json_toy publish_inputs ready draft_inputs input
      (toy_node json_toy tt true) signed_task inputs listener publish_test refl under_rate "k"
