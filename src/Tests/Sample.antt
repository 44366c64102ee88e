-- ===== src/Tests/Sample.antt =====
-- The configuration and the outside world of the tests, after the sample in README.md.
use go2rtc_manager.Prelude.{ℕ, ◌*◌, true, false, [], ◌∷◌, some}
use go2rtc_manager.Prelude.Int.{ℤ, pos}
use go2rtc_manager.Prelude.Results.{ok}
use go2rtc_manager.Prelude.Text.{Text, codes, CaseTable}
use go2rtc_manager.Config.{Config}
use go2rtc_manager.Go2Rtc.Yaml.{Node, node, nil, cons, scalar_node, mapping_node, document_node}
use go2rtc_manager.Go2Rtc.Payload.{null}
use go2rtc_manager.Go2Rtc.Calls.{Api, Response}
use go2rtc_manager.Record.Execute.{Store}

abbrev pub seconds : ℕ → ℤ
seconds n = pos (n * 1000000000)

abbrev pub sample_config : Config
sample_config = record {
  app = record { name = codes "go2rtc-manager"; env = codes "dev"; box_ip = codes "10.0.0.1" };
  log = record {
    level = codes "info";
    format = codes "json";
    file_path = [];
    max_size_mb = pos 0;
    max_backups = pos 0;
    max_age_days = pos 0;
    compress = false;
  };
  http = record {
    addr = codes ":8080";
    read_timeout = seconds 10;
    write_timeout = seconds 10;
    idle_timeout = seconds 30;
  };
  go2rtc = record {
    base_url = codes "http://go2rtc:1984/";
    username = [];
    password = [];
    config_path = codes "/config/go2rtc.yaml";
    request_timeout = seconds 5;
    backup_before_change = true;
  };
  schedule = record {
    run_on_start = true;
    crons = codes "0 3 * * *" ∷ [];
    confirmation_delay = seconds 60;
  };
  action = record { dry_run = true };
  snapshot = record { storage_dir = codes "/snapshots" };
  recording = record {
    max_duration = seconds 600;
    job_retention = seconds 3600;
    max_concurrent_jobs = pos 1;
    allowed_ips = codes "127.0.0.1" ∷ codes "192.168.0.0/24" ∷ [];
  };
  minio = record {
    endpoint = codes "minio:9000";
    access_key = codes "key";
    secret_key = codes "secret";
    use_ssl = false;
  };
  mongodb = record {
    uri = codes "mongodb://db";
    database = codes "bodycam";
    collection = codes "info";
  };
  redis = record {
    addr = codes "redis:6379";
    password = [];
    db = pos 0;
    publish_interval = seconds 60;
  };
}

abbrev scalar : Text → Node
scalar s = node scalar_node s nil

-- The document `streams: {a: rtsp://a}`.
abbrev pub sample_yaml : Node
sample_yaml = node document_node [] (
    cons
      (node mapping_node [] (
        cons (scalar (codes "streams")) (
          cons
            (node mapping_node []
              (cons (scalar (codes "a")) (cons (scalar (codes "rtsp://a")) nil)))
            nil)))
      nil)

-- go2rtc answers each request with status 200 and an image; each file reads as one letter.
abbrev pub good_answer : Response
good_answer = record {
  status_code = 200;
  content_type = codes "image/jpeg";
  content_length = pos 1;
  body = ok (codes "x");
}

abbrev pub good_api : Api
good_api = record {
  read_file = λ path. ok (codes "c");
  write_file = λ path body. ok tt;
  make_dir = λ path. ok tt;
  parse_url = λ s. ok (record { origin = codes "http://go2rtc:1984"; path = []; query = [] });
  check_request = λ request. ok tt;
  exchange = λ request. ok good_answer;
  parse_yaml = λ s. ok sample_yaml;
  parse_json = λ s. ok null;
  local_stamp = λ now. codes "20240101-000000";
}

abbrev pub good_store : Store
good_store = record {
  find_one = λ mac.
      ok (some (record { process = codes "Bodycam_Prod"; site = codes "s1"; group = codes "g1" }));
  bucket_exists = λ bucket. ok true;
  make_bucket = λ bucket. ok tt;
  put_object = λ bucket key body size content_type. ok tt;
}

abbrev pub ascii_table : CaseTable
ascii_table = record { lower = λ c. c; upper = λ c. c }
