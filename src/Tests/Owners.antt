-- ===== src/Tests/Owners.antt =====
-- The client in memory accepts every owner of a new object, and neither it nor its parser of sizes panics.
use atomix_operator.Base.{◌≢◌, ap, any, panic, arith, String}
use atomix_operator.Controller.Client.{Owner}
use atomix_operator.Controller.Ensures.Owned.{IsOwner, OwnsCalmly}
use atomix_operator.Tests.Memory.{
  foreign, platform, client, references_with, is_controlling, reference_to,
}

pub client-IsOwner : (owner : Owner foreign) → IsOwner client owner
client-IsOwner owner m new =
    (_, ap (λ rs. references_with (any is_controlling rs) (reference_to owner) rs) new)

pub client-OwnsCalmly : OwnsCalmly client
client-OwnsCalmly owner m e = ground arith

pub parse-ne-panic : (size : String) → platform.parse_quantity size ≢ panic
parse-ne-panic size e = ground arith
