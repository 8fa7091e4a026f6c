-- ===== src/Drill/Faults.antt =====
-- tools/chaos/drill.py: the faults.
use srechat.Prelude.{ℕ, List, [], ◌∷◌}
use srechat.Text.{codes}

pub record Fault : Type 0 where
  pub name : List ℕ
  pub cause : List ℕ
  pub keywords : List (List ℕ)
  pub inject : List ℕ
  pub restore : List ℕ
  pub verify_broken : List ℕ

abbrev pub faults : List Fault
faults =
    record {
      name = codes "app-container-stopped";
      cause = codes "the app container was stopped";
      keywords =
          codes "app" ∷ codes "container" ∷ codes "stopped" ∷ codes "down" ∷ codes "exited" ∷ [];
      inject = codes "sudo docker stop deploy-app-1";
      restore = codes "sudo docker start deploy-app-1";
      verify_broken = codes "! sudo docker ps --format '{{.Names}}' | grep -q deploy-app-1";
    }
    ∷ record {
      name = codes "disk-nearly-full";
      cause = codes "a large file filled the disk";
      keywords = codes "disk" ∷ codes "space" ∷ codes "full" ∷ codes "storage" ∷ [];
      inject =
          codes
            "free=$(df --output=avail -m / | tail -1); fallocate -l $((free * 92 / 100))M /var/log/srechat-audit.log.1 || dd if=/dev/zero of=/var/log/srechat-audit.log.1 bs=1M count=$((free * 92 / 100))";
      restore = codes "rm -f /var/log/srechat-audit.log.1";
      verify_broken = codes "test -f /var/log/srechat-audit.log.1";
    }
    ∷ record {
      name = codes "caddy-stopped";
      cause = codes "the caddy reverse proxy was stopped, so TLS traffic is not served";
      keywords = codes "caddy" ∷ codes "proxy" ∷ codes "tls" ∷ codes "stopped" ∷ codes "down" ∷ [];
      inject = codes "sudo docker stop deploy-caddy-1";
      restore = codes "sudo docker start deploy-caddy-1";
      verify_broken = codes "! sudo docker ps --format '{{.Names}}' | grep -q deploy-caddy-1";
    }
    ∷ record {
      name = codes "replication-blackholed";
      cause = codes "outbound replication to peers was blocked by a firewall rule";
      keywords =
          codes "replication"
          ∷ codes "peer"
          ∷ codes "network"
          ∷ codes "firewall"
          ∷ codes "wireguard"
          ∷ codes "converge"
          ∷ [];
      inject = codes "sudo iptables -I OUTPUT -p udp --dport 51820 -j DROP";
      restore = codes "sudo iptables -D OUTPUT -p udp --dport 51820 -j DROP || true";
      verify_broken = codes "sudo iptables -C OUTPUT -p udp --dport 51820 -j DROP";
    }
    ∷ []
